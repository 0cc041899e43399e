-- ===== src/Utils/Substring.antt =====
-- `strstr` of src/utils.c.
use ro_dos.Prelude.{
  ℕ, zero, suc, ◌<◌, ◌≡◌, refl, sym, ap, ◌∙◌, ◌≢◌, inl, inr, true, false, Option, none, some, List,
  [], ◌∷◌, ◌++◌, arith, ◌==◌, Bool-cases, drop,
}
use ro_dos.Text.{peek, text}
use ro_dos.Utils.Strings.{strstr, starts_with, next_offset}

-- Where the needle stands first in a text, as an answer of a search: it stands there, and nowhere
-- before; or nowhere at all.
abbrev pub IsFirst : List ℕ → List ℕ → Option ℕ → Type 0
IsFirst h n none = (j : ℕ) (post : List ℕ) → drop j h ≢ n ++ post
IsFirst h n (some i) =
    ((post : List ℕ) × (drop i h ≡ n ++ post))
    × ((j : ℕ) (post : List ℕ) → j < i → drop j h ≢ n ++ post)

starts_with_yes :
    (h n : List ℕ) → starts_with h n ≡ true → (post : List ℕ) × (text h ≡ text n ++ post)
unfolding starts_with
starts_with_yes h [] e = (text h, refl)
starts_with_yes [] (c ∷ n) e = ([], ground (arith, e))
starts_with_yes (x ∷ h) (c ∷ n) e = elim (Bool-cases (c == 0)) [
  | inl z ↦ rw z (text (x ∷ h), refl)
  | inr z ↦
      let live : (x == 0) ≡ false = ground (arith, e, z) in
      let same : x ≡ c = ground (arith, e, z) in
      let (post, rest) = starts_with_yes h n (ground (arith, e, z)) in
      rw (z, live) (post, rw (same, rest) refl)
]

tail_eq : {x y : ℕ} {xs ys : List ℕ} → (x ∷ xs) ≡ (y ∷ ys) → xs ≡ ys
tail_eq q = ap (drop 1) q

starts_with_no : (h n post : List ℕ) → starts_with h n ≡ false → text h ≢ text n ++ post
unfolding starts_with
starts_with_no h [] post e = absurd (ground arith)
starts_with_no [] (c ∷ n) post e = λ q. absurd (ground (arith, e, q))
starts_with_no (x ∷ h) (c ∷ n) post e = elim (Bool-cases (c == 0)) [
  | inl z ↦ absurd (ground (arith, e, z))
  | inr z ↦ rw z (elim (Bool-cases (x == 0)) [
    | inl end ↦ rw end (λ q. absurd (cc))
    | inr live ↦ rw live (λ q. starts_with_no h n post (ground (arith, e, z, live, q)) (tail_eq q))
  ])
]

no_text : (n : List ℕ) → (peek n == 0) ≡ true → text n ≡ []
no_text [] e = refl
no_text (c ∷ n) e = ground (arith, e)

some_text : (n post : List ℕ) → (peek n == 0) ≡ false → [] ≢ text n ++ post
some_text [] post e = absurd (ground arith)
some_text (c ∷ n) post e = ground (arith, e)

drop_nil : (j : ℕ) → drop {A = ℕ} j [] ≡ []
drop_nil zero = refl
drop_nil (suc j) = refl

-- The empty text has the needle only when that is empty.
nowhere : (n : List ℕ) → (peek n == 0) ≡ false → IsFirst [] (text n) none
nowhere n e j post q = some_text n post e (sym (drop_nil j) ∙ q)

found_here : (h n post : List ℕ) → h ≡ n ++ post → IsFirst h n (some 0)
found_here h n post e = ((post, e), λ j rest l. absurd (omega arith))

later_on :
    (c : ℕ) (h n : List ℕ) (o : Option ℕ)
    → ((post : List ℕ) → (c ∷ h) ≢ n ++ post)
    → IsFirst h n o
    → IsFirst (c ∷ h) n (next_offset o)
later_on c h n none here later = λ j post. not_at j post
  where
    not_at : (j : ℕ) (post : List ℕ) → drop j (c ∷ h) ≢ n ++ post
    not_at zero post = here post
    not_at (suc j) post = later j post
later_on c h n (some i) here (found, before) = (found, λ j post l. not_at j post l)
  where
    not_at : (j : ℕ) (post : List ℕ) → j < suc i → drop j (c ∷ h) ≢ n ++ post
    not_at zero post l = here post
    not_at (suc j) post l = before j post (omega arith)

-- `strstr` finds the first place where the needle stands, and answers NULL only when it stands nowhere.
pub strstr-IsFirst : (h n : List ℕ) → IsFirst (text h) (text n) (strstr h n)
unfolding strstr
strstr-IsFirst [] n = elim (Bool-cases (peek n == 0)) [
  | inl empty ↦ rw (empty, no_text n empty) (found_here [] [] [] refl)
  | inr more ↦ rw more (nowhere n more)
]
strstr-IsFirst (x ∷ h) n = elim (Bool-cases (peek n == 0)) [
  | inl empty ↦ rw (empty, no_text n empty) (found_here (text (x ∷ h)) [] (text (x ∷ h)) refl)
  | inr more ↦ elim (Bool-cases (x == 0)) [
    | inl end ↦ rw (more, end) (nowhere n more)
    | inr live ↦ elim (Bool-cases (starts_with (x ∷ h) n)) [
      | inl yes_here ↦
          let (post, e) = starts_with_yes (x ∷ h) n yes_here in
          let e' : (x ∷ text h) ≡ text n ++ post = rw live at e in
          rw (more, live, yes_here) (found_here (x ∷ text h) (text n) post e')
      | inr no_here ↦
          rw (more, live, no_here)
            (later_on x (text h) (text n) (strstr h n)
              (λ post q. starts_with_no (x ∷ h) n post no_here (rw live q)) (strstr-IsFirst h n))
    ]
  ]
]
