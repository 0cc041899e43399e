-- ===== src/Fs/Contents/Saved.antt =====
-- CAT after `save_file_content`, in src/commands.c.
use ro_dos.Array.Search.{first_index-some, first_index_miss, first_index-none, first_index_hit}
use ro_dos.Array.Slots.{get_or-set_self, get_or-of-get_elem, take-set_above}
use ro_dos.Array.Pad.{length-overlay}
use ro_dos.Prelude.Int.{pos}
use ro_dos.Prelude.{
  inr, inl, Option-cases, length-set, get_elem?-set_self, length-take, min, none, ℕ, zero, suc, ◌-◌,
  ◌≤◌, ◌<◌, ◌≡◌, refl, sym, ap, ◌∙◌, some, List, [], ◌∷◌, ◌++◌, arith, ◌==◌, if◌then◌else◌, length,
  set, get_or, take,
}
use ro_dos.Array.{first_index, overlay}
use ro_dos.Fs.{Fs, FileContent, no_content}
use ro_dos.Fs.Contents.{
  set_size, save_content_of, new_content, is_content_of, write_content, show_content,
}

-- Each content has its whole array.
abbrev pub AreBuffers : List FileContent → Type 0
AreBuffers [] = Unit {0}
AreBuffers (c ∷ cs) = (length c.bytes ≡ 4096) × AreBuffers cs

AreBuffers-get_or :
    (cs : List FileContent) (i : ℕ)
    → i < length cs
    → AreBuffers cs
    → length (get_or cs i no_content).bytes ≡ 4096
AreBuffers-get_or [] i l h = absurd (omega arith)
AreBuffers-get_or (c ∷ cs) zero l h = h.0
AreBuffers-get_or (c ∷ cs) (suc i) l h = AreBuffers-get_or cs i (omega arith) h.1

take-overlay {ℓ} :
    {A : Type ℓ} (xs ys : List A) → length xs ≤ length ys → take (length xs) (overlay xs ys) ≡ xs
take-overlay [] ys h = refl
take-overlay (x ∷ xs) [] h = absurd (omega arith)
take-overlay (x ∷ xs) (y ∷ ys) h = ap (λ l. x ∷ l) (take-overlay xs ys (omega arith))

-- The newline that CAT adds.
abbrev pub last_line : List ℕ → List ℕ
last_line s = if get_or s (length s - 1) 0 == b'\n' then [] else b'\n' ∷ []

get_or-take {ℓ} :
    {A : Type ℓ} (xs : List A) (n i : ℕ) (d : A) → i < n → get_or (take n xs) i d ≡ get_or xs i d
get_or-take [] zero i d h = refl
get_or-take [] (suc n) i d h = refl
get_or-take (x ∷ xs) zero i d h = absurd (omega arith)
get_or-take (x ∷ xs) (suc n) zero d h = refl
get_or-take (x ∷ xs) (suc n) (suc i) d h = get_or-take xs n i d (omega arith)

-- What is shown of a slot that holds `body` at the front of its array.
pub show_content_lem :
    (c : FileContent) (body : List ℕ)
    → length c.bytes ≡ 4096
    → c.size ≤ 4096
    → 0 < c.size
    → length body ≡ c.size
    → take c.size c.bytes ≡ body
    → show_content c ≡ some (body ++ last_line body)
unfolding show_content
show_content_lem c body l n p k e =
    let last : get_or c.bytes (c.size - 1) 0 ≡ get_or body (length body - 1) 0 =
      sym (get_or-take c.bytes c.size (c.size - 1) 0 (omega arith))
      ∙ ap (λ s. get_or s (c.size - 1) 0) e
      ∙ ap (λ j. get_or body (j - 1) 0) (sym k) in
    rw (e, last) (ground arith)

-- The file `idx` has a content slot that holds `body`.
pub record IsStored (idx : ℕ) (body : List ℕ) (s : Fs) : Type 0 where
  pub slot : ℕ
  pub found : first_index (is_content_of idx) s.file_contents s.file_content_count ≡ some slot
  pub size : (get_or s.file_contents slot no_content).size ≡ length body
  pub whole : length (get_or s.file_contents slot no_content).bytes ≡ 4096
  pub holds : take (length body) (get_or s.file_contents slot no_content).bytes ≡ body

-- Writing over a slot that the search for `idx` reaches first.
write_content-IsStored :
    (idx c : ℕ) (body : List ℕ) (len : ℕ) (s : Fs)
    → c < s.file_content_count
    → c < length s.file_contents
    → (get_or s.file_contents c no_content).file_idx ≡ idx
    → length (get_or s.file_contents c no_content).bytes ≡ 4096
    → first_index (is_content_of idx) s.file_contents c ≡ none
    → len ≤ 4096
    → len ≤ length body
    → IsStored idx (take len body) (write_content c body len s)
unfolding write_content
write_content-IsStored idx c body len s live inside same whole before short enough =
    let old = get_or s.file_contents c no_content in
    let n : min len 4096 ≡ len = omega arith in
    let v = record old {
      size = min len 4096;
      bytes = overlay (take (min len 4096) body) old.bytes;
    } in
    let at = get_or-set_self s.file_contents c v no_content inside in
    let k : length (take len body) ≡ len = omega (arith, length-take len body) in
    record {
      slot = c;
      found =
          first_index_hit (is_content_of idx) (set s.file_contents c v) s.file_content_count c live
            (get_elem?-set_self s.file_contents c v inside) (ground arith)
            (rw (take-set_above s.file_contents c c v (omega arith))
              (first_index-none (is_content_of idx) s.file_contents c before));
      size = ap (λ (x : FileContent). x.size) at ∙ omega arith;
      whole =
          ap (λ (x : FileContent). length x.bytes) at
          ∙ length-overlay (take (min len 4096) body) old.bytes
          ∙ whole;
      holds =
          ap (λ (x : FileContent). take (length (take len body)) x.bytes) at
          ∙ rw n (take-overlay (take len body) old.bytes (omega arith));
    }

-- The slot that `new_content` takes.
new_content-IsStored :
    (idx : ℕ) (body : List ℕ) (len : ℕ) (s : Fs)
    → first_index (is_content_of idx) s.file_contents s.file_content_count ≡ none
    → s.file_content_count < length s.file_contents
    → AreBuffers s.file_contents
    → len ≤ 4096
    → len ≤ length body
    → IsStored idx (take len body) (write_content s.file_content_count body len (new_content idx s))
unfolding new_content
new_content-IsStored idx body len s missing room whole short enough =
    let n = s.file_content_count in
    let v = record (get_or s.file_contents n no_content) { file_idx = idx } in
    let at = get_or-set_self s.file_contents n v no_content room in
    write_content-IsStored idx n body len (new_content idx s) (omega arith)
      (omega (arith, length-set s.file_contents n v)) (ap (λ (x : FileContent). x.file_idx) at)
      (ap (λ (x : FileContent). length x.bytes) at ∙ AreBuffers-get_or s.file_contents n room whole)
      (first_index_miss (is_content_of idx) (set s.file_contents n v) n (
        rw (take-set_above s.file_contents n n v (omega arith))
          (first_index-none (is_content_of idx) s.file_contents n missing)))
      short enough

-- Saving a content of an entry of the table, with a free slot, stores it and sets the size.
pub save_content_of_lem :
    (idx : ℕ) (body : List ℕ) (len : ℕ) (s : Fs)
    → s.file_content_count < length s.file_contents
    → length s.file_contents ≡ 64
    → AreBuffers s.file_contents
    → len ≤ 4096
    → len ≤ length body
    → (s' : Fs) × (save_content_of idx body len s ≡ (pos 0, s'))
      × (s'.fs_table ≡ (set_size idx len s).fs_table)
      × (s'.fs_count ≡ s.fs_count)
      × (s'.current_dir ≡ s.current_dir)
      × IsStored idx (take len body) s'
unfolding save_content_of set_size write_content new_content
save_content_of_lem idx body len s room all whole short enough =
    let sized = set_size idx len s in
    elim (Option-cases (first_index (is_content_of idx) s.file_contents s.file_content_count)) [
      | inl e ↦ (
        write_content s.file_content_count body len (new_content idx sized),
        rw (e, save_content_of) (ground arith),
        refl,
        refl,
        refl,
        new_content-IsStored idx body len sized e room whole short enough,
      )
      | inr (c, e) ↦
          let (x, l, at, hit, before) =
            first_index-some (is_content_of idx) s.file_contents s.file_content_count c e in
          let x_at = get_or-of-get_elem s.file_contents c x no_content at in
          (
            write_content c body len sized,
            rw (e, save_content_of) refl,
            refl,
            refl,
            refl,
            write_content-IsStored idx c body len sized l (omega arith)
                (ap (λ (y : FileContent). y.file_idx) x_at ∙ ground arith)
                (AreBuffers-get_or s.file_contents c (omega arith) whole)
                (first_index_miss (is_content_of idx) s.file_contents c before) short enough,
          )
    ]
