-- ===== src/Fs/Commands/Remove.antt =====
-- DEL of src/commands.c.
use ro_dos.Prelude.{
  ℕ, suc, ◌+◌, ◌-◌, ◌<◌, ◌≡◌, refl, sym, ap, ◌∙◌, ◌⊎◌, inl, inr, true, false, none, some, List,
  arith, ◌==◌, Bool-cases, Option-cases, get_elem?, take,
}
use ro_dos.Prelude.Int.{pos, minus_one}
use ro_dos.Array.{first_index, close_gap, erase_at}
use ro_dos.Array.Gap.{take-close_gap}
use ro_dos.Array.Slots.{get_elem?-take}
use ro_dos.Array.Search.{first_index-none, None, first_index-some}
use ro_dos.Text.{peek, get_token}
use ro_dos.Fs.{Fs, FsEntry, is_named_of_type, entries, contents}
use ro_dos.Fs.Valid.{IsValid}
use ro_dos.Fs.Device.{BlockDevice}
use ro_dos.Fs.Commands.{Machine, remove_entry, persist, cmd_del}
use ro_dos.Fs.Commands.Create.{path_of}
use ro_dos.Fs.Commands.Invariant.{path_fits}

pub entries-remove_entry :
    (i : ℕ) (s : Fs)
    → IsValid s
    → i < s.fs_count
    → entries (remove_entry i s) ≡ erase_at i (entries s)
unfolding remove_entry
entries-remove_entry i s v h =
    let last : i + (s.fs_count - 1 - i) ≡ s.fs_count - 1 = omega arith in
    let all : suc (s.fs_count - 1) ≡ s.fs_count = omega arith in
    let closed =
      take-close_gap i (s.fs_count - 1 - i) s.fs_table (omega (arith, v.files, v.file_count)) in
    ap (λ k. take k (close_gap i (s.fs_count - 1 - i) s.fs_table)) (sym last)
    ∙ closed
    ∙ ap (λ k. erase_at i (take k s.fs_table)) (ap suc last ∙ all)

module _ (dev : BlockDevice) (args : List ℕ) (m : Machine dev) (v : IsValid m.fs) where
  del_missing :
      first_index (is_named_of_type 0 (path_of m.fs args)) m.fs.fs_table m.fs.fs_count ≡ none
      → cmd_del dev args m ≡ some (minus_one, m)
  unfolding cmd_del
  del_missing missing = rw (path_fits m.fs args v) (ground arith)

  del_found :
      (i : ℕ)
      → (peek (get_token args 64).0 == 0) ≡ false
      → first_index (is_named_of_type 0 (path_of m.fs args)) m.fs.fs_table m.fs.fs_count ≡ some i
      → cmd_del dev args m ≡ some (pos 0, persist dev (remove_entry i m.fs) m)
  unfolding cmd_del
  del_found i given found = rw (path_fits m.fs args v) (ground arith)

  -- On valid tables, DEL returns -1 and changes nothing if its argument is empty or no file has the
  -- path of it. Otherwise it returns 0 and takes the first file with the path out of the table, so
  -- that each later entry moves down by one index, and leaves the contents and the indices in them
  -- as they were.
  pub cmd_del_lem :
      (((peek (get_token args 64).0 ≡ 0)
          ⊎ None (is_named_of_type 0 (path_of m.fs args)) (entries m.fs))
        × (cmd_del dev args m ≡ some (minus_one, m)))
      ⊎ ((i : ℕ) × (e : FsEntry) × (m' : Machine dev) × (cmd_del dev args m ≡ some (pos 0, m'))
          × (get_elem? (entries m.fs) i ≡ some e)
          × (is_named_of_type 0 (path_of m.fs args) e ≡ true)
          × None (is_named_of_type 0 (path_of m.fs args)) (take i m.fs.fs_table)
          × (entries m'.fs ≡ erase_at i (entries m.fs))
          × (contents m'.fs ≡ contents m.fs))
  unfolding cmd_del persist remove_entry
  cmd_del_lem =
      let p = is_named_of_type 0 (path_of m.fs args) in
      elim (Bool-cases (peek (get_token args 64).0 == 0)) [
        | inl none_given ↦ inl (inl (ground (arith, none_given)), rw none_given refl)
        | inr given ↦ elim (Option-cases (first_index p m.fs.fs_table m.fs.fs_count)) [
          | inl e ↦ inl (inr (first_index-none p m.fs.fs_table m.fs.fs_count e), del_missing e)
          | inr (i, e) ↦
              let (x, l, at, hit, before) = first_index-some p m.fs.fs_table m.fs.fs_count i e in
              inr (
                i,
                x,
                persist dev (remove_entry i m.fs) m,
                del_found i given e,
                get_elem?-take m.fs.fs_table m.fs.fs_count i l ∙ at,
                hit,
                before,
                entries-remove_entry i m.fs v l,
                same_contents i,
              )
        ]
      ]
    where
      same_contents : (i : ℕ) → contents (remove_entry i m.fs) ≡ contents m.fs
      same_contents i = refl
