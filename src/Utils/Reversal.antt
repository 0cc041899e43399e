-- ===== src/Utils/Reversal.antt =====
-- The loop of `strrev` and of `reverse_array` of src/utils.c turns a list around.
use mathlib.Core.List.{append_assoc, append-nil}
use mathlib.Core.Path.{ap₂}
use ro_dos.Prelude.{
  ℕ, zero, suc, ◌+◌, ◌-◌, ◌≤◌, ◌≡◌, refl, sym, ap, ◌∙◌, true, false, List, [], ◌∷◌, ◌++◌, arith,
  ltb, ◌==◌, if◌then◌else◌, length, set, get_or, length-append,
}
use ro_dos.Utils.Convert.{swap_ends, strrev, reverse_array}
use ro_dos.Utils.Strings.{strlen}
use ro_dos.Bytes.Loads.{set-append, get_or-behind}

-- The list from its last element to its first.
abbrev pub reversed : List ℕ → List ℕ
reversed [] = []
reversed (x ∷ s) = reversed s ++ (x ∷ [])

pub reversed-append : (xs ys : List ℕ) → reversed (xs ++ ys) ≡ reversed ys ++ reversed xs
reversed-append [] ys = sym (append-nil (reversed ys))
reversed-append (x ∷ xs) ys =
    ap (λ l. l ++ (x ∷ [])) (reversed-append xs ys)
    ∙ append_assoc (reversed ys) (reversed xs) (x ∷ [])

-- A list that is not empty: its front and its last element.
record Ends (s : List ℕ) : Type 0 where
  middle : List ℕ
  last : ℕ
  parts : s ≡ middle ++ (last ∷ [])

ends : (y : ℕ) (s : List ℕ) → Ends (y ∷ s)
ends y [] = record { middle = []; last = y; parts = refl }
ends y (z ∷ s) =
    let e = ends z s in
    record { middle = y ∷ e.middle; last = e.last; parts = ap (λ l. y ∷ l) e.parts }

split : {s : List ℕ} → Ends s → (mid : List ℕ) × (y : ℕ) × (s ≡ mid ++ (y ∷ []))
split e = (e.middle, e.last, e.parts)

-- One round: the first and the last change places.
swap_lem :
    (pre mid post : List ℕ) (x y : ℕ)
    → (let s = pre ++ (x ∷ (mid ++ (y ∷ post))) in
        let end = length pre + length mid + 1 in
        set (set s (length pre) (get_or s end 0)) end (get_or s (length pre) 0)
        ≡ (pre ++ (y ∷ [])) ++ (mid ++ (x ∷ post)))
swap_lem pre mid post x y =
    let tail = mid ++ (y ∷ post) in
    let s = pre ++ (x ∷ tail) in
    let end = length pre + length mid + 1 in
    let last : get_or s end 0 ≡ y =
      ap (λ l. get_or l end 0) (sym (append_assoc pre (x ∷ mid) (y ∷ post)))
      ∙ get_or-behind (pre ++ (x ∷ mid)) (y ∷ post) end 0 0
          (omega (arith, length-append pre (x ∷ mid))) in
    let first : get_or s (length pre) 0 ≡ x =
      get_or-behind pre (x ∷ tail) (length pre) 0 0 (omega arith) in
    let place : end ≡ length (pre ++ (y ∷ mid)) = omega (arith, length-append pre (y ∷ mid)) in
    ap₂ (λ a b. set (set s (length pre) a) end b) last first
    ∙ ap (λ l. set l end x) (set-append pre tail x y ∙ sym (append_assoc pre (y ∷ mid) (y ∷ post)))
    ∙ ap (λ k. set ((pre ++ (y ∷ mid)) ++ (y ∷ post)) k x) place
    ∙ set-append (pre ++ (y ∷ mid)) post y x
    ∙ append_assoc pre (y ∷ mid) (x ∷ post)
    ∙ sym (append_assoc pre (y ∷ []) (mid ++ (x ∷ post)))

stop_lem : (n start end : ℕ) (s : List ℕ) → end ≤ start → swap_ends n start end s ≡ s
unfolding swap_ends
stop_lem zero start end s h = refl
stop_lem (suc n) start end s h = let e : ltb start end ≡ false = ground arith in rw e refl

round_lem :
    (n : ℕ) (pre mid post : List ℕ) (x y : ℕ)
    → swap_ends
        (suc n)
        (length pre)
        (length pre + length mid + 1)
        (pre ++ (x ∷ (mid ++ (y ∷ post))))
      ≡ swap_ends n
          (length pre + 1)
          (length pre + length mid + 1 - 1)
          ((pre ++ (y ∷ [])) ++ (mid ++ (x ∷ post)))
unfolding swap_ends
round_lem n pre mid post x y =
    let e : ltb (length pre) (length pre + length mid + 1) ≡ true = ground arith in
    rw e (
      ap (swap_ends n (length pre + 1) (length pre + length mid + 1 - 1))
        (swap_lem pre mid post x y))

-- The part of a list between two places is turned around, in as many rounds as it has elements.
swap_ends-reversed :
    (n : ℕ) (pre m post : List ℕ) (start end : ℕ)
    → start ≡ length pre
    → end ≡ length pre + length m - 1
    → length m ≤ n + 1
    → swap_ends n start end (pre ++ (m ++ post)) ≡ pre ++ (reversed m ++ post)
swap_ends-reversed n pre [] post start end a b h =
    stop_lem n start end (pre ++ post) (omega (arith, a, b))
swap_ends-reversed n pre (x ∷ []) post start end a b h =
    stop_lem n start end (pre ++ (x ∷ post)) (omega (arith, a, b))
swap_ends-reversed zero pre (x ∷ z ∷ t) post start end a b h = absurd (omega arith)
swap_ends-reversed (suc n) pre (x ∷ z ∷ t) post start end a b h =
    let (mid, y, parts) = split (ends z t) in
    let size : length (z ∷ t) ≡ length mid + 1 = ap length parts ∙ length-append mid (y ∷ []) in
    let front = pre ++ (y ∷ []) in
    let longer : length front ≡ length pre + 1 = length-append pre (y ∷ []) in
    ap₂ (λ i j. swap_ends (suc n) i j (pre ++ (x ∷ ((z ∷ t) ++ post)))) a (b ∙ omega (arith, size))
    ∙ ap (λ l. swap_ends (suc n) (length pre) (length pre + length mid + 1) (pre ++ (x ∷ l)))
        (ap (λ l. l ++ post) parts ∙ append_assoc mid (y ∷ []) post)
    ∙ round_lem n pre mid post x y
    ∙ swap_ends-reversed n front mid (x ∷ post) (length pre + 1) (length pre + length mid + 1 - 1)
        (sym longer) (omega (arith, longer)) (omega (arith, size))
    ∙ append_assoc pre (y ∷ []) (reversed mid ++ (x ∷ post))
    ∙ ap (λ l. pre ++ l)
        (sym (append_assoc (y ∷ reversed mid) (x ∷ []) post)
          ∙ ap (λ l. (l ++ (x ∷ [])) ++ post)
              (sym (ap reversed parts ∙ reversed-append mid (y ∷ []))))

loop_lem :
    (m rest : List ℕ)
    → (if length m == 0 then m ++ rest else swap_ends (length m) 0 (length m - 1) (m ++ rest))
      ≡ reversed m ++ rest
loop_lem [] rest = refl
loop_lem (x ∷ m) rest =
    let e : (length (x ∷ m) == 0) ≡ false = ground arith in
    rw e (
      swap_ends-reversed (length (x ∷ m)) [] (x ∷ m) rest 0 (length (x ∷ m) - 1) refl (omega arith)
        (omega arith))

-- `strrev` turns a text around, and `reverse_array` the first elements of an array, as many as it is
-- told.
pub strrev-reversed :
    (s m rest : List ℕ)
    → strlen s ≡ length s
    → (strrev s ≡ reversed s) × (reverse_array (m ++ rest) (length m) ≡ reversed m ++ rest)
unfolding strrev reverse_array
strrev-reversed s m rest e = (
  ap (λ n. if n == 0 then s else swap_ends n 0 (n - 1) s) e
      ∙ ap (λ l. if length s == 0 then l else swap_ends (length s) 0 (length s - 1) l)
          (sym (append-nil s))
      ∙ loop_lem s []
      ∙ append-nil (reversed s),
  loop_lem m rest,
)
