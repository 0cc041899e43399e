-- ===== src/Fs/Commands/Invariant.antt =====
-- Every command of the file system keeps its tables valid and stays inside `full_path`.
use ro_dos.Prelude.{
  ℕ, zero, suc, ◌+◌, ◌-◌, ◌≤◌, ◌<◌, min, ◌≡◌, refl, ap, ◌∙◌, ◌≢◌, inl, inr, Bool, true, false,
  Option, none, some, List, [], ◌∷◌, ◌++◌, arith, ltb, lt→ltb, Option-cases, length, get_elem?, set,
  get_or, take, length-set, length-take,
}
use ro_dos.Prelude.Int.{ℤ, pos}
use ro_dos.Array.{overlay, first_index, close_gap, shift_down}
use ro_dos.Array.Gap.{length-close_gap}
use ro_dos.Array.Search.{first_index-some}
use ro_dos.Text.{str_copy, get_token, text}
use ro_dos.Text.Copy.{str_copy_lem}
use ro_dos.Text.Compare.{text_eq_of_str_cmp}
use ro_dos.Text.Token.{get_token_lem}
use ro_dos.Fs.{FileContent, no_content, Fs, FsEntry, is_named, is_named_of_type, no_entry}
use ro_dos.Fs.Valid.{AreNames, AreSized, IsValid}
use ro_dos.Fs.Path.{full_path}
use ro_dos.Fs.Path.Bounds.{full_path_lem, parent_dir-le, enter_dir-le}
use ro_dos.Fs.Device.{BlockDevice}
use ro_dos.Fs.Commands.{
  copies, copy_slot, copy_content, Machine, add_entry, remove_entry, rename_entry, set_attr,
  persist, cmd_mkdir, cmd_rmdir, cmd_touch, cmd_del, cmd_cd, cmd_move, cmd_chmod, cmd_copy, ◌>>=◌,
}

pub length-text : (s : List ℕ) → length (text s) ≤ length s
length-text [] = omega arith
length-text (c ∷ s) = ground (arith, length-text s)

AreNames-set :
    (t : List FsEntry) (i : ℕ) (e : FsEntry)
    → length e.name ≡ 56
    → length (text e.name) ≤ 55
    → AreNames t
    → AreNames (set t i e)
AreNames-set [] i e l n h = tt
AreNames-set (x ∷ t) zero e l n h = (l, n, h.2)
AreNames-set (x ∷ t) (suc i) e l n h = (h.0, h.1, AreNames-set t i e l n h.2)

pub AreNames-get_or :
    (t : List FsEntry) (i : ℕ)
    → i < length t
    → AreNames t
    → (length (get_or t i no_entry).name ≡ 56) × (length (text (get_or t i no_entry).name) ≤ 55)
AreNames-get_or [] i l h = absurd (omega arith)
AreNames-get_or (x ∷ t) zero l h = (h.0, h.1)
AreNames-get_or (x ∷ t) (suc i) l h = AreNames-get_or t i (omega arith) h.2

AreNames-shift_down : (r : ℕ) (t : List FsEntry) → AreNames t → AreNames (shift_down r t)
unfolding close_gap
AreNames-shift_down zero t h = h
AreNames-shift_down (suc r) [] h = h
AreNames-shift_down (suc r) (x ∷ []) h = h
AreNames-shift_down (suc r) (x ∷ y ∷ t) h = (h.2.0, h.2.1, AreNames-shift_down r (y ∷ t) h.2)

AreNames-close_gap : (i r : ℕ) (t : List FsEntry) → AreNames t → AreNames (close_gap i r t)
unfolding close_gap
AreNames-close_gap zero r t h = AreNames-shift_down r t h
AreNames-close_gap (suc i) r [] h = h
AreNames-close_gap (suc i) r (x ∷ t) h = (h.0, h.1, AreNames-close_gap i r t h.2)

-- A name copied into a `char[56]`.
copied_name :
    (old path : List ℕ)
    → length old ≡ 56
    → (length (str_copy old path 56) ≡ 56) × (length (text (str_copy old path 56)) ≤ 55)
copied_name old path h =
    let c = str_copy_lem old path 56 (omega arith) (omega arith) in
    (c.0 ∙ h, omega (arith, ap length c.1, length-take 55 (text path)))

pub add_entry-IsValid :
    (path : List ℕ) (size type attr : ℕ) (s : Fs)
    → s.fs_count < 128
    → IsValid s
    → IsValid (add_entry path size type attr s)
unfolding add_entry
add_entry-IsValid path size type attr s h v =
    let n =
      copied_name (get_or s.fs_table s.fs_count no_entry).name path
        (AreNames-get_or s.fs_table s.fs_count (omega (arith, v.files)) v.names).0 in
    record {
      files = length-set s.fs_table s.fs_count _ ∙ v.files;
      file_count = omega arith;
      names = AreNames-set s.fs_table s.fs_count _ n.0 n.1 v.names;
      user_slots = v.user_slots;
      user_limit = v.user_limit;
      slots = v.slots;
      sizes = v.sizes;
      slot_count = v.slot_count;
      dir_length = v.dir_length;
      dir_short = v.dir_short;
    }

pub remove_entry-IsValid : (i : ℕ) (s : Fs) → IsValid s → IsValid (remove_entry i s)
unfolding remove_entry
remove_entry-IsValid i s v = record {
  files = length-close_gap i (s.fs_count - 1 - i) s.fs_table ∙ v.files;
  file_count = omega (arith, v.file_count);
  names = AreNames-close_gap i (s.fs_count - 1 - i) s.fs_table v.names;
  user_slots = v.user_slots;
  user_limit = v.user_limit;
  slots = v.slots;
  sizes = v.sizes;
  slot_count = v.slot_count;
  dir_length = v.dir_length;
  dir_short = v.dir_short;
}

-- A table whose entries are changed in place stays valid.
set_entry-IsValid :
    (i : ℕ) (e : FsEntry) (s : Fs)
    → length e.name ≡ 56
    → length (text e.name) ≤ 55
    → IsValid s
    → IsValid (record s { fs_table = set s.fs_table i e })
set_entry-IsValid i e s l n v = record {
  files = length-set s.fs_table i e ∙ v.files;
  file_count = v.file_count;
  names = AreNames-set s.fs_table i e l n v.names;
  user_slots = v.user_slots;
  user_limit = v.user_limit;
  slots = v.slots;
  sizes = v.sizes;
  slot_count = v.slot_count;
  dir_length = v.dir_length;
  dir_short = v.dir_short;
}

first_index-lt :
    (p : FsEntry → Bool) (s : Fs) (i : ℕ)
    → first_index p s.fs_table s.fs_count ≡ some i
    → i < s.fs_count
first_index-lt p s i e = (first_index-some p s.fs_table s.fs_count i e).1

pub rename_entry-IsValid :
    (i : ℕ) (name : List ℕ) (s : Fs) → i < s.fs_count → IsValid s → IsValid (rename_entry i name s)
unfolding rename_entry
rename_entry-IsValid i name s h v =
    let old = AreNames-get_or s.fs_table i (omega (arith, v.files, v.file_count)) v.names in
    let n = copied_name (get_or s.fs_table i no_entry).name name old.0 in
    set_entry-IsValid i _ s n.0 n.1 v

pub set_attr-IsValid :
    (i attr : ℕ) (s : Fs) → i < s.fs_count → IsValid s → IsValid (set_attr i attr s)
unfolding set_attr
set_attr-IsValid i attr s h v =
    let old = AreNames-get_or s.fs_table i (omega (arith, v.files, v.file_count)) v.names in
    set_entry-IsValid i _ s old.0 old.1 v

AreSized-set :
    (cs : List FileContent) (i : ℕ) (c : FileContent)
    → length c.bytes ≡ 4096
    → c.size ≤ 4096
    → AreSized cs
    → AreSized (set cs i c)
AreSized-set [] i c l n h = tt
AreSized-set (x ∷ cs) zero c l n h = (l, n, h.2)
AreSized-set (x ∷ cs) (suc i) c l n h = (h.0, h.1, AreSized-set cs i c l n h.2)

AreSized-get_or :
    (cs : List FileContent) (i : ℕ)
    → i < length cs
    → AreSized cs
    → (length (get_or cs i no_content).bytes ≡ 4096) × ((get_or cs i no_content).size ≤ 4096)
AreSized-get_or [] i l h = absurd (omega arith)
AreSized-get_or (x ∷ cs) zero l h = (h.0, h.1)
AreSized-get_or (x ∷ cs) (suc i) l h = AreSized-get_or cs i (omega arith) h.2

length-overlay : (xs ys : List ℕ) → length (overlay xs ys) ≡ length ys
length-overlay [] [] = refl
length-overlay (x ∷ xs) [] = refl
length-overlay [] (y ∷ ys) = refl
length-overlay (x ∷ xs) (y ∷ ys) = omega (arith, length-overlay xs ys)

-- An outcome of a copy: no fault, and valid tables.
abbrev IsCopied : Option Fs → Type 0
IsCopied none = ⊥
IsCopied (some s) = IsValid s

copy_slot-IsValid :
    (i j : ℕ) (s : Fs)
    → i < s.file_content_count
    → s.file_content_count < 64
    → IsValid s
    → IsCopied (copy_slot i j s)
unfolding copy_slot
copy_slot-IsValid i j s inside h v =
    let c = get_or s.file_contents i no_content in
    let old = get_or s.file_contents s.file_content_count no_content in
    let from = AreSized-get_or s.file_contents i (omega (arith, v.slots)) v.sizes in
    let to =
      AreSized-get_or s.file_contents s.file_content_count (omega (arith, v.slots)) v.sizes in
    let fits : ltb (min (length c.bytes) (length old.bytes)) c.size ≡ false =
      ground (arith, from.0, from.1, to.0) in
    let whole = length-overlay (take c.size c.bytes) old.bytes ∙ to.0 in
    rw fits (record {
      files = v.files;
      file_count = v.file_count;
      names = v.names;
      user_slots = v.user_slots;
      user_limit = v.user_limit;
      slots = length-set s.file_contents s.file_content_count _ ∙ v.slots;
      sizes = AreSized-set s.file_contents s.file_content_count _ whole from.1 v.sizes;
      slot_count = omega arith;
      dir_length = v.dir_length;
      dir_short = v.dir_short;
    })

pub copy_content-IsValid : (i j : ℕ) (s : Fs) → IsValid s → IsCopied (copy_content i j s)
unfolding copy_content copies
copy_content-IsValid i j s v =
    elim (Option-cases (first_index (copies i s) s.file_contents s.file_content_count)) [
      | inl e ↦ rw (e, copy_content) v
      | inr (k, e) ↦
          let (c, inside, _, hit, _) =
            first_index-some (copies i s) s.file_contents s.file_content_count k e in
          rw (e, copy_content) (copy_slot-IsValid k j s inside (ground arith) v)
    ]

-- A command's outcome: no fault, and valid tables.
abbrev pub Keeps : {dev : BlockDevice} → Option (ℤ × Machine dev) → Type 0
Keeps none = ⊥
Keeps (some (r, m)) = IsValid m.fs

pub token_short : (s : List ℕ) → length (text (get_token s 64).0) ≤ 63
token_short s = omega (arith, length-text (get_token s 64).0, (get_token_lem s 64 (omega arith)).2)

-- The path of a valid directory and a token fits.
pub path_fits :
    (s : Fs) (args : List ℕ)
    → IsValid s
    → full_path s.current_dir (get_token args 64).0
      ≡ some (text s.current_dir ++ text (get_token args 64).0)
path_fits s args v =
    rw
      (
        full_path_lem,
        lt→ltb (length (text s.current_dir) + length (text (get_token args 64).0)) 256
            (omega (arith, v.dir_short, token_short args)),
      )
      refl

pub AreNames-get_elem? :
    (t : List FsEntry) (i : ℕ) (e : FsEntry)
    → get_elem? t i ≡ some e
    → AreNames t
    → length (text e.name) ≤ 55
AreNames-get_elem? [] i e h n = absurd (cc)
AreNames-get_elem? (x ∷ t) zero e h n = ground arith
AreNames-get_elem? (x ∷ t) (suc i) e h n = AreNames-get_elem? t i e h n.2

pub is_named→text : (path : List ℕ) (e : FsEntry) → is_named path e ≡ true → text e.name ≡ text path
is_named→text path e h = text_eq_of_str_cmp e.name path (ground arith)

-- A path that a search finds is a name of the table.
found_path :
    (s : Fs) (t : ℕ) (path : List ℕ)
    → IsValid s
    → first_index (is_named_of_type t path) s.fs_table s.fs_count ≢ none
    → length (text path) ≤ 55
found_path s t path v found =
    elim (Option-cases (first_index (is_named_of_type t path) s.fs_table s.fs_count)) [
      | inl e ↦ absurd (found e)
      | inr (i, e) ↦
          let (x, _, at, hit, _) =
            first_index-some (is_named_of_type t path) s.fs_table s.fs_count i e in
          rw (← is_named→text path x (ground arith)) (AreNames-get_elem? s.fs_table i x at v.names)
    ]

module _ (dev : BlockDevice) (args : List ℕ) (m : Machine dev) (v : IsValid m.fs) where
  pub cmd_mkdir-Keeps : Keeps (cmd_mkdir dev args m)
  unfolding cmd_mkdir persist
  cmd_mkdir-Keeps =
      let path = text m.fs.current_dir ++ text (get_token args 64).0 in
      rw (path_fits m.fs args v) (ground (arith, add_entry-IsValid path 0 1 0x10 m.fs))

  pub cmd_touch-Keeps : Keeps (cmd_touch dev args m)
  unfolding cmd_touch persist
  cmd_touch-Keeps =
      let path = text m.fs.current_dir ++ text (get_token args 64).0 in
      rw (path_fits m.fs args v) (ground (arith, add_entry-IsValid path 0 0 0x20 m.fs))

  pub cmd_rmdir-Keeps : Keeps (cmd_rmdir dev args m)
  unfolding cmd_rmdir persist
  cmd_rmdir-Keeps = grind (arith, remove_entry-IsValid)

  pub cmd_del-Keeps : Keeps (cmd_del dev args m)
  unfolding cmd_del persist
  cmd_del-Keeps = rw (path_fits m.fs args v) (grind (arith, remove_entry-IsValid))

  pub cmd_cd-Keeps : Keeps (cmd_cd dev args m)
  unfolding cmd_cd persist
  cmd_cd-Keeps =
      let path = text m.fs.current_dir ++ text (get_token args 64).0 in
      rw (path_fits m.fs args v) (
        ground (
          arith,
          parent_dir-le m.fs.current_dir,
          found_path m.fs 1 path,
          enter_dir-le m.fs.current_dir path,
        ))

  pub cmd_chmod-Keeps : Keeps (cmd_chmod dev args m)
  unfolding cmd_chmod persist
  cmd_chmod-Keeps = grind (arith, set_attr-IsValid, first_index-lt)

  pub cmd_move-Keeps : Keeps (cmd_move dev args m)
  unfolding cmd_move persist
  cmd_move-Keeps = grind (arith, rename_entry-IsValid, first_index-lt)

  copied-Keeps : (o : Option Fs) → IsCopied o → Keeps (do s ← o; some (pos 0, persist dev s m))
  unfolding persist
  copied-Keeps none h = h
  copied-Keeps (some s) h = h

  pub cmd_copy-Keeps : Keeps (cmd_copy dev args m)
  unfolding cmd_copy
  cmd_copy-Keeps = grind (arith, add_entry-IsValid, copy_content-IsValid, copied-Keeps)
