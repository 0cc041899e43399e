-- ===== src/Fs/Commands/Create.antt =====
-- TOUCH and MKDIR of src/commands.c.
use mathlib.Core.List.{append_assoc}
use native.Mathlib.Numerals.{add-one}
use ro_dos.Prelude.{
  ℕ, ◌+◌, ◌≤◌, ◌<◌, ◌≡◌, refl, sym, ap, ◌∙◌, ◌≢◌, inl, inr, none, some, List, [], ◌∷◌, ◌++◌, arith,
  Option-cases, length, set, get_or, take, get_elem?-set_self, take-all,
}
use ro_dos.Prelude.Int.{pos}
use ro_dos.Array.{first_index}
use ro_dos.Array.Search.{first_index-some, first_index-none, first_index_hit}
use ro_dos.Array.Slots.{take-set_end, take-set_above}
use ro_dos.Text.{peek, str_copy, get_token, text}
use ro_dos.Text.Copy.{text-append, str_copy_lem}
use ro_dos.Text.Compare.{str_cmp_of_text_eq}
use ro_dos.Fs.{Fs, FsEntry, is_named, no_entry, entries}
use ro_dos.Fs.Valid.{IsValid}
use ro_dos.Fs.Device.{BlockDevice}
use ro_dos.Fs.Commands.{Machine, add_entry, persist, cmd_touch}
use ro_dos.Fs.Commands.Invariant.{
  path_fits, is_named→text, add_entry-IsValid, AreNames-get_or, AreNames-get_elem?,
}

-- The path that a command means: the current directory and the first token.
abbrev pub path_of : Fs → List ℕ → List ℕ
path_of s args = text s.current_dir ++ text (get_token args 64).0

-- The entry that `add_entry` writes.
abbrev new_entry : List ℕ → ℕ → ℕ → ℕ → Fs → FsEntry
new_entry path size type attr s =
    let old = get_or s.fs_table s.fs_count no_entry in
    record old { name = str_copy old.name path 56; size = size; type = type; attr = attr }

module _ (path : List ℕ) (size type attr : ℕ) (s : Fs) (v : IsValid s)
    (room : s.fs_count < 128) where
  entries-add_entry :
      entries (add_entry path size type attr s)
      ≡ entries s ++ (new_entry path size type attr s ∷ [])
  unfolding add_entry
  entries-add_entry =
      ap (λ k. take k (set s.fs_table s.fs_count (new_entry path size type attr s)))
        (add-one s.fs_count)
      ∙ take-set_end s.fs_table s.fs_count _ (omega (arith, v.files))

  pub text-new_entry : text (new_entry path size type attr s).name ≡ take 55 (text path)
  text-new_entry =
      let old = AreNames-get_or s.fs_table s.fs_count (omega (arith, v.files)) v.names in
      (str_copy_lem (get_or s.fs_table s.fs_count no_entry).name path 56 (omega arith)
        (omega (arith, old.0))).1

  -- A path of at most 55 characters that was not there is found at the end of the table.
  found_after :
      first_index (is_named path) s.fs_table s.fs_count ≡ none
      → length (text path) ≤ 55
      → first_index
          (is_named path)
          (add_entry path size type attr s).fs_table
          (add_entry path size type attr s).fs_count
        ≡ some s.fs_count
  unfolding add_entry
  found_after missing short =
      first_index_hit (is_named path) (set s.fs_table s.fs_count (new_entry path size type attr s))
        (s.fs_count + 1) s.fs_count (omega arith)
        (get_elem?-set_self s.fs_table s.fs_count _ (omega (arith, v.files)))
        (rw
          (str_cmp_of_text_eq (new_entry path size type attr s).name path
            (text-new_entry ∙ take-all 55 (text path) short))
          refl)
        (rw
          (take-set_above s.fs_table s.fs_count s.fs_count (new_entry path size type attr s)
            (omega arith))
          (first_index-none (is_named path) s.fs_table s.fs_count missing))

-- No name of a valid table is as long as this path, so no search finds it.
long_path_missing :
    (s : Fs) (path : List ℕ)
    → IsValid s
    → 55 < length (text path)
    → first_index (is_named path) s.fs_table s.fs_count ≡ none
long_path_missing s path v long =
    elim (Option-cases (first_index (is_named path) s.fs_table s.fs_count)) [
      | inl e ↦ e
      | inr (i, e) ↦
          let (x, _, at, hit, _) = first_index-some (is_named path) s.fs_table s.fs_count i e in
          absurd (
            omega (
              arith,
              AreNames-get_elem? s.fs_table i x at v.names,
              ap length (is_named→text path x hit),
            ))
    ]

module _ (dev : BlockDevice) (args : List ℕ) (m : Machine dev) (v : IsValid m.fs) where
  text-path_of : text (path_of m.fs args) ≡ path_of m.fs args
  text-path_of = text-append m.fs.current_dir (get_token args 64).0

  -- The machine after TOUCH made an entry.
  abbrev touched : Machine dev
  touched = persist dev (add_entry (path_of m.fs args) 0 0 0x20 m.fs) m

  touch_makes :
      peek (get_token args 64).0 ≢ 0
      → m.fs.fs_count < 128
      → first_index (is_named (path_of m.fs args)) m.fs.fs_table m.fs.fs_count ≡ none
      → cmd_touch dev args m ≡ some (pos 0, touched)
  unfolding cmd_touch
  touch_makes named room missing = rw (path_fits m.fs args v) (ground arith)

  touch_finds :
      (i : ℕ)
      → peek (get_token args 64).0 ≢ 0
      → m.fs.fs_count < 128
      → first_index (is_named (path_of m.fs args)) m.fs.fs_table m.fs.fs_count ≡ some i
      → cmd_touch dev args m ≡ some (pos 0, m)
  unfolding cmd_touch
  touch_finds i named room found = rw (path_fits m.fs args v) (ground arith)

  entries-touched :
      m.fs.fs_count < 128
      → entries touched.fs ≡ entries m.fs ++ (new_entry (path_of m.fs args) 0 0 0x20 m.fs ∷ [])
  unfolding persist
  entries-touched room = entries-add_entry (path_of m.fs args) 0 0 0x20 m.fs v room

  touched-IsValid : m.fs.fs_count < 128 → IsValid touched.fs
  unfolding persist
  touched-IsValid room = add_entry-IsValid (path_of m.fs args) 0 0 0x20 m.fs room v

  path_of-touched : path_of touched.fs args ≡ path_of m.fs args
  unfolding persist add_entry
  path_of-touched = refl

  count-touched : touched.fs.fs_count ≡ m.fs.fs_count + 1
  unfolding persist add_entry
  count-touched = refl

  found-touched :
      m.fs.fs_count < 128
      → first_index (is_named (path_of m.fs args)) m.fs.fs_table m.fs.fs_count ≡ none
      → length (path_of m.fs args) ≤ 55
      → first_index (is_named (path_of touched.fs args)) touched.fs.fs_table touched.fs.fs_count
        ≡ some m.fs.fs_count
  unfolding persist
  found-touched room missing short = rw path_of-touched (
      found_after (path_of m.fs args) 0 0 0x20 m.fs v room missing
        (omega (arith, ap length text-path_of)))

module _ (dev : BlockDevice) (args : List ℕ) (m : Machine dev) (v : IsValid m.fs) where
  -- On valid tables with a free entry, TOUCH of a name that the current directory does not have
  -- returns 0 and appends one entry to the table: an empty file whose name is the path, cut to 55
  -- characters.
  pub cmd_touch_new :
      peek (get_token args 64).0 ≢ 0
      → m.fs.fs_count < 128
      → first_index (is_named (path_of m.fs args)) m.fs.fs_table m.fs.fs_count ≡ none
      → (m' : Machine dev) × (e : FsEntry) × (cmd_touch dev args m ≡ some (pos 0, m'))
        × (entries m'.fs ≡ entries m.fs ++ (e ∷ []))
        × (text e.name ≡ take 55 (path_of m.fs args))
        × (e.size ≡ 0)
        × (e.type ≡ 0)
  unfolding persist
  cmd_touch_new named room missing = (
    touched dev args m v,
    new_entry (path_of m.fs args) 0 0 0x20 m.fs,
    touch_makes dev args m v named room missing,
    entries-add_entry (path_of m.fs args) 0 0 0x20 m.fs v room,
    text-new_entry (path_of m.fs args) 0 0 0x20 m.fs v room
        ∙ ap (take 55) (text-path_of dev args m v),
    refl,
    refl,
  )

  -- On valid tables with two free entries, a TOUCH that returned 0 is idempotent for a path of at
  -- most 55 characters: done again, it returns 0 and changes nothing.
  pub cmd_touch_again :
      (m' : Machine dev)
      → peek (get_token args 64).0 ≢ 0
      → m.fs.fs_count < 127
      → length (path_of m.fs args) ≤ 55
      → cmd_touch dev args m ≡ some (pos 0, m')
      → cmd_touch dev args m' ≡ some (pos 0, m')
  cmd_touch_again m' named room short done =
      elim (Option-cases (first_index (is_named (path_of m.fs args)) m.fs.fs_table m.fs.fs_count)) [
        | inr (i, e) ↦
            let same : m' ≡ m = cc (touch_finds dev args m v i named (omega arith) e) in
            rw same (touch_finds dev args m v i named (omega arith) e)
        | inl e ↦
            let same : m' ≡ touched dev args m v =
              cc (touch_makes dev args m v named (omega arith) e) in
            rw same (
              touch_finds dev args (touched dev args m v)
                (touched-IsValid dev args m v (omega arith)) m.fs.fs_count named
                (omega (arith, count-touched dev args m v))
                (found-touched dev args m v (omega arith) e short))
      ]

  -- On valid tables with two free entries, TOUCH of a path of more than 55 characters makes an entry
  -- each time: two calls in a row return 0 and append two files of the same name.
  pub cmd_touch_duplicates :
      peek (get_token args 64).0 ≢ 0
      → m.fs.fs_count < 127
      → 55 < length (path_of m.fs args)
      → (m' m'' : Machine dev) × (e f : FsEntry) × (cmd_touch dev args m ≡ some (pos 0, m'))
        × (cmd_touch dev args m' ≡ some (pos 0, m''))
        × (entries m''.fs ≡ entries m.fs ++ (e ∷ f ∷ []))
        × (text e.name ≡ text f.name)
  cmd_touch_duplicates named room long =
      let t = touched dev args m v in
      let w = touched-IsValid dev args m v (omega arith) in
      let path = path_of m.fs args in
      let same = path_of-touched dev args m v in
      let n : 55 < length (text path) = omega (arith, ap length (text-path_of dev args m v)) in
      let n' : 55 < length (text (path_of t.fs args)) = rw same n in
      let room' : t.fs.fs_count < 128 = omega (arith, count-touched dev args m v) in
      (
        t,
        touched dev args t w,
        new_entry path 0 0 0x20 m.fs,
        new_entry (path_of t.fs args) 0 0 0x20 t.fs,
        touch_makes dev args m v named (omega arith) (long_path_missing m.fs path v n),
        touch_makes dev args t w named room' (long_path_missing t.fs (path_of t.fs args) w n'),
        entries-touched dev args t w room'
            ∙ ap (λ l. l ++ (new_entry (path_of t.fs args) 0 0 0x20 t.fs ∷ []))
                (entries-touched dev args m v (omega arith))
            ∙ append_assoc (entries m.fs) (new_entry path 0 0 0x20 m.fs ∷ [])
                (new_entry (path_of t.fs args) 0 0 0x20 t.fs ∷ []),
        text-new_entry path 0 0 0x20 m.fs v (omega arith)
            ∙ ap (λ (q : List ℕ). take 55 (text q)) (sym same)
            ∙ sym (text-new_entry (path_of t.fs args) 0 0 0x20 t.fs w room'),
      )
