-- ===== src/Fs/Contents/Cat.antt =====
-- CAT of a file that `save_file_content` made, in src/commands.c.
use ro_dos.Array.Search.{first_index-none, first_index_hit, None}
use ro_dos.Fs.Valid.{IsValid}
use ro_dos.Text.{peek, get_token, str_copy, text}
use ro_dos.Array.Slots.{get_or-set_self, get_or-of-get_elem, take-set_above}
use ro_dos.Array.{first_index}
use ro_dos.Fs.Contents.Saved.{
  show_content_lem, save_content_of_lem, last_line, IsStored, AreBuffers,
}
use ro_dos.Fs.Commands.Invariant.{path_fits, token_short, AreNames-get_or}
use ro_dos.Text.Compare.{str_cmp_of_text_eq}
use ro_dos.Text.Copy.{text-append, str_len-eq-length, str_copy_lem}
use ro_dos.Prelude.Int.{pos}
use ro_dos.Fs.Commands.Create.{path_of}
use ro_dos.Prelude.{
  ◌==◌, sym, length-take, lt→ltb, ◌++◌, ◌≢◌, ℕ, ◌+◌, ◌≤◌, ◌<◌, ◌≡◌, refl, ap, ◌∙◌, Bool, false,
  none, some, List, [], ◌∷◌, arith, length, get_elem?, set, get_or, take, length-set,
  get_elem?-set_self, take-all,
}
use ro_dos.Fs.{no_content, is_named_of_type, is_named, no_entry, Fs, FsEntry}
use ro_dos.Fs.Contents.{
  show_content, save_content_of, cat_line, cmd_cat, save_file_content, save_path, cat_file,
  new_file, set_size,
}

module _ {ℓ} {A : Type ℓ} (p q : A → Bool) (weaker : (x : A) → p x ≡ false → q x ≡ false) where
  None-weaken : (xs : List A) → None p xs → None q xs
  None-weaken [] h = tt
  None-weaken (x ∷ xs) h = (weaker x h.0, None-weaken xs h.1)

module _ (path : List ℕ) (len : ℕ) (s : Fs) (v : IsValid s) (room : s.fs_count < 128) where
  abbrev sized : Fs
  sized = set_size s.fs_count len (new_file path s)

  -- The entry of a new file.
  sized_entry :
      (e : FsEntry) × (get_elem? sized.fs_table s.fs_count ≡ some e)
      × (text e.name ≡ take 55 (text path))
      × (e.type ≡ 0)
      × (e.size ≡ len)
  unfolding set_size new_file
  sized_entry =
      let old = get_or s.fs_table s.fs_count no_entry in
      let n = s.fs_count in
      let e = record old {
        name = str_copy old.name path 56;
        type = 0;
        attr = 0;
        parent_idx = 0xFFFF;
      } in
      let inside : n < length s.fs_table = omega (arith, v.files) in
      let at = get_or-set_self s.fs_table n e no_entry inside in
      let names = AreNames-get_or s.fs_table n inside v.names in
      (
        record (get_or (set s.fs_table n e) n no_entry) { size = len },
        get_elem?-set_self (set s.fs_table n e) n _ (omega (arith, length-set s.fs_table n e)),
        ap (λ (x : FsEntry). text x.name) at
            ∙ (str_copy_lem old.name path 56 (omega arith) (omega (arith, names.0))).1,
        ap (λ (x : FsEntry). x.type) at,
        refl,
      )

  same_before : take s.fs_count sized.fs_table ≡ take s.fs_count s.fs_table
  unfolding set_size new_file
  same_before =
      take-set_above _ s.fs_count s.fs_count _ (omega arith)
      ∙ take-set_above s.fs_table s.fs_count s.fs_count _ (omega arith)

  -- The search for a file of the path reaches the new entry first.
  found_sized :
      first_index (is_named path) s.fs_table s.fs_count ≡ none
      → length (text path) ≤ 55
      → first_index (is_named_of_type 0 path) sized.fs_table (s.fs_count + 1) ≡ some s.fs_count
  found_sized missing short =
      let (e, at, name, type, size) = sized_entry in
      let same : text e.name ≡ text path = name ∙ take-all 55 (text path) short in
      first_index_hit (is_named_of_type 0 path) sized.fs_table (s.fs_count + 1) s.fs_count
        (omega arith) at (rw (str_cmp_of_text_eq e.name path same, type) refl)
        (rw same_before (
          None-weaken (is_named path) (is_named_of_type 0 path) (λ x h. ground arith)
            (take s.fs_count s.fs_table)
            (first_index-none (is_named path) s.fs_table s.fs_count missing)))

cat_stored :
    (idx : ℕ) (body : List ℕ) (s : Fs)
    → IsStored idx body s
    → 0 < length body
    → length body ≤ 4096
    → (get_or s.fs_table idx no_entry).size ≡ length body
    → cat_file idx s ≡ some (pos 0, cat_line idx s.file_content_count ++ (body ++ last_line body))
unfolding cat_file
cat_stored idx body s st some_byte short size =
    let c = get_or s.file_contents st.slot no_content in
    let shown : show_content c ≡ some (body ++ last_line body) =
      show_content_lem c body st.whole (omega (arith, st.size)) (omega (arith, st.size))
        (sym st.size) (ap (λ n. take n c.bytes) st.size ∙ st.holds) in
    let nonempty : (c.size == 0) ≡ false = ground (arith, st.size) in
    let given : ((get_or s.fs_table idx no_entry).size == 0) ≡ false = ground (arith, size) in
    rw (given, st.found, nonempty, shown) refl

module _ (args : List ℕ) (s : Fs) (v : IsValid s) (whole : AreBuffers s.file_contents) where
  save_path_lem :
      get_or (get_token args 64).0 1 0 ≢ b':'
      → save_path s.current_dir (get_token args 64).0 ≡ some (path_of s args)
  unfolding save_path
  save_path_lem plain =
      rw
        (
          str_len-eq-length s.current_dir,
          str_len-eq-length (get_token args 64).0,
          lt→ltb (length (text s.current_dir) + length (text (get_token args 64).0)) 256
              (omega (arith, v.dir_short, token_short args)),
        )
        (ground arith)

  saves_new :
      (body : List ℕ) (len : ℕ)
      → get_or (get_token args 64).0 1 0 ≢ b':'
      → s.fs_count < 128
      → first_index (is_named (path_of s args)) s.fs_table s.fs_count ≡ none
      → save_file_content (get_token args 64).0 body len s
        ≡ some (save_content_of s.fs_count body len (new_file (path_of s args) s))
  unfolding save_file_content
  saves_new body len plain room missing = rw (save_path_lem plain) (ground (arith, missing))

  cat_finds :
      (i : ℕ) (s' : Fs)
      → peek (get_token args 64).0 ≢ 0
      → s'.current_dir ≡ s.current_dir
      → first_index (is_named_of_type 0 (path_of s args)) s'.fs_table s'.fs_count ≡ some i
      → cmd_cat args s' ≡ cat_file i s'
  unfolding cmd_cat
  cat_finds i s' named dir found = rw (dir, path_fits s args v) (ground (arith, found))

  -- On valid tables with whole content arrays, CAT prints what was saved: `save_file_content` of 1 to 4096 bytes under a new name without a
  -- drive, whose path has at most 55 characters, returns 0 if there is a free entry and a free
  -- content, and CAT of that name then returns 0 and prints these bytes, after a line on where it
  -- looks, with a newline behind them if they do not end in one.
  pub cmd_cat-save_file_content :
      (body : List ℕ) (len : ℕ)
      → peek (get_token args 64).0 ≢ 0
      → get_or (get_token args 64).0 1 0 ≢ b':'
      → s.fs_count < 128
      → s.file_content_count < 64
      → length (path_of s args) ≤ 55
      → first_index (is_named (path_of s args)) s.fs_table s.fs_count ≡ none
      → 0 < len
      → len ≤ 4096
      → len ≤ length body
      → (s' : Fs) × (save_file_content (get_token args 64).0 body len s ≡ some (pos 0, s'))
        × (cmd_cat args s'
            ≡ some (
              pos 0,
              cat_line s.fs_count s'.file_content_count
                  ++ (take len body ++ last_line (take len body)),
            ))
  unfolding new_file
  cmd_cat-save_file_content body len named plain room free short missing some_byte fits enough =
      let path = path_of s args in
      let (s', saved, table, count, dir, stored) =
        save_content_of_lem s.fs_count body len (new_file path s) (omega (arith, v.slots)) v.slots
          whole fits enough in
      let k : length (take len body) ≡ len = omega (arith, length-take len body) in
      let n : length (text path) ≤ 55 =
        rw (text-append s.current_dir (get_token args 64).0) short in
      let found = found_sized path len s v room missing n in
      let (e, at, _, _, size) = sized_entry path len s v room in
      let entry : get_or s'.fs_table s.fs_count no_entry ≡ e =
        ap (λ (t : List FsEntry). get_or t s.fs_count no_entry) table
        ∙ get_or-of-get_elem (sized path len s v room).fs_table s.fs_count e no_entry at in
      (
        s',
        saves_new body len plain room missing ∙ ap some saved,
        cat_finds s.fs_count s' named dir (rw (table, count) found)
            ∙ cat_stored s.fs_count (take len body) s' stored (omega arith) (omega arith)
                (ap (λ (x : FsEntry). x.size) entry ∙ size ∙ sym k),
      )
