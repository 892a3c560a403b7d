-- ===== src/Prelude/Text.antt =====
-- Texts as lists of code points, and cutting a list at the items that a test accepts.
use Prim.Native.Char.{code}
use Prim.Native.String.{String}
use Prim.Native.Nat.{ℕ}
use mathlib.Core.Path.{◌≡◌, refl, sym, ap, ◌∙◌}
use mathlib.Core.Logic.{◌≢◌, inl, inr}
use mathlib.Core.Bool.{Bool, true, false, ◌&&◌, ◌||◌}
use mathlib.Core.Option.{Option, none, some}
use mathlib.Core.List.{List, [], ◌∷◌, ◌++◌, map, append_assoc}
use ras_pi_zero_cam.Prelude.Tests.{◌==◌, if◌then◌else◌, Bool-cases}

abbrev pub Bytes : Type 0
Bytes = List ℕ

-- `String` has its own `[]` and `∷`.
abbrev pub codes : String → Bytes
codes String.[] = []
codes (String.◌∷◌ c s) = code c ∷ codes s

-- Equality of strings.
abbrev pub same : Bytes → Bytes → Bool
same [] [] = true
same [] (y ∷ ys) = false
same (x ∷ xs) [] = false
same (x ∷ xs) (y ∷ ys) = (x == y) && same xs ys

-- The rest of a text behind a prefix.
abbrev pub drop_prefix : Bytes → Bytes → Option Bytes
drop_prefix [] s = some s
drop_prefix (c ∷ cs) [] = none
drop_prefix (c ∷ cs) (d ∷ s) = let rest = drop_prefix cs s in if c == d then rest else none

abbrev or_else : Option Bytes → Option Bytes → Option Bytes
or_else none o = o
or_else (some s) o = some s

-- The rest of the first text with the prefix.
abbrev pub find_prefix : Bytes → List Bytes → Option Bytes
find_prefix key [] = none
find_prefix key (s ∷ ss) = or_else (drop_prefix key s) (find_prefix key ss)

module _ {ℓ} {A : Type ℓ} where
  -- Does the test accept an item?
  abbrev pub any : (A → Bool) → List A → Bool
  any p [] = false
  any p (x ∷ xs) = p x || any p xs

  abbrev pub first_part : A → List (List A) → List (List A)
  first_part c [] = (c ∷ []) ∷ []
  first_part c (p ∷ ps) = (c ∷ p) ∷ ps

  -- The parts between the accepted items, the empty ones included.
  abbrev pub split_by : (A → Bool) → List A → List (List A)
  split_by p [] = [] ∷ []
  split_by p (x ∷ xs) = let rest = split_by p xs in if p x then [] ∷ rest else first_part x rest

  -- The last part on the left and the first one on the right are one part.
  abbrev pub glue : List (List A) → List (List A) → List (List A)
  glue [] qs = qs
  glue (p ∷ []) [] = p ∷ []
  glue (p ∷ []) (q ∷ qs) = (p ++ q) ∷ qs
  glue (p ∷ p' ∷ ps) qs = p ∷ glue (p' ∷ ps) qs

  abbrev pub glue_all : List (List (List A)) → List (List A)
  glue_all [] = [] ∷ []
  glue_all (ps ∷ []) = ps
  glue_all (ps ∷ qs ∷ pss) = glue ps (glue_all (qs ∷ pss))

  -- What a stream holds after the pieces are written to it.
  abbrev pub join : List (List A) → List A
  join [] = []
  join (xs ∷ []) = xs
  join (xs ∷ ys ∷ xss) = xs ++ join (ys ∷ xss)

module _ {ℓ} {A : Type ℓ} (p : A → Bool) where
  pub any-append : (xs ys : List A) → any p (xs ++ ys) ≡ (any p xs || any p ys)
  any-append [] ys = refl
  any-append (x ∷ xs) ys = go (p x) (any-append xs ys)
    where
      go :
          (b : Bool)
          → any p (xs ++ ys) ≡ (any p xs || any p ys)
          → (b || any p (xs ++ ys)) ≡ ((b || any p xs) || any p ys)
      go true e = refl
      go false e = e

  pub split_by-plain : (xs : List A) → any p xs ≡ false → split_by p xs ≡ xs ∷ []
  split_by-plain [] h = refl
  split_by-plain (x ∷ xs) h = elim (Bool-cases (p x)) [
    | inl e ↦ absurd (no (rw e at h))
    | inr e ↦ rw e (ap (first_part x) (split_by-plain xs (rw e at h)))
  ]
    where
      no : ¬ (true ≡ false)
      no e = cc

  cons_some : (q : List A) (qs : List (List A)) → q ∷ qs ≢ []
  cons_some q qs e = cc

  first_some : (x : A) (ps : List (List A)) → first_part x ps ≢ []
  first_some x [] e = cc
  first_some x (q ∷ qs) e = cc

  split_by-ne-nil : (xs : List A) → split_by p xs ≢ []
  split_by-ne-nil [] e = cons_some [] [] e
  split_by-ne-nil (x ∷ xs) e = elim (Bool-cases (p x)) [
    | inl b ↦ cons_some [] (split_by p xs) (rw b at e)
    | inr b ↦ first_some x (split_by p xs) (rw b at e)
  ]

  glue_nil_cons : (ps qs : List (List A)) → ps ≢ [] → glue ([] ∷ ps) qs ≡ [] ∷ glue ps qs
  glue_nil_cons [] qs h = absurd (h refl)
  glue_nil_cons (q ∷ ps) qs h = refl

  glue_nil : (qs : List (List A)) → qs ≢ [] → glue ([] ∷ []) qs ≡ qs
  glue_nil [] h = absurd (h refl)
  glue_nil (q ∷ qs) h = refl

  glue-first_part :
      (x : A) (ps qs : List (List A))
      → ps ≢ []
      → qs ≢ []
      → glue (first_part x ps) qs ≡ first_part x (glue ps qs)
  glue-first_part x [] qs h k = absurd (h refl)
  glue-first_part x (q ∷ []) [] h k = absurd (k refl)
  glue-first_part x (q ∷ []) (r ∷ qs) h k = refl
  glue-first_part x (q ∷ r ∷ ps) qs h k = refl

  pub split_by-append :
      (xs ys : List A) → split_by p (xs ++ ys) ≡ glue (split_by p xs) (split_by p ys)
  split_by-append [] ys = sym (glue_nil (split_by p ys) (split_by-ne-nil ys))
  split_by-append (x ∷ xs) ys = elim (Bool-cases (p x)) [
    | inl e ↦ rw e (
        ap (◌∷◌ []) (split_by-append xs ys)
        ∙ sym (glue_nil_cons (split_by p xs) (split_by p ys) (split_by-ne-nil xs)))
    | inr e ↦ rw e (
        ap (first_part x) (split_by-append xs ys)
        ∙ sym (
            glue-first_part x (split_by p xs) (split_by p ys) (split_by-ne-nil xs)
              (split_by-ne-nil ys)))
  ]

  -- At an accepted item the parts of both sides stay whole.
  pub split_by-at :
      (xs : List A) (x : A) (ys : List A)
      → p x ≡ true
      → split_by p (xs ++ x ∷ ys) ≡ split_by p xs ++ split_by p ys
  split_by-at [] x ys h = rw h
  split_by-at (y ∷ xs) x ys h = elim (Bool-cases (p y)) [
    | inl e ↦ rw e (ap (◌∷◌ []) (split_by-at xs x ys h))
    | inr e ↦ rw e (
        ap (first_part y) (split_by-at xs x ys h)
        ∙ moved y (split_by p xs) (split_by p ys) (split_by-ne-nil xs))
  ]
    where
      moved :
          (y : A) (ps qs : List (List A))
          → ps ≢ []
          → first_part y (ps ++ qs) ≡ first_part y ps ++ qs
      moved y [] qs k = absurd (k refl)
      moved y (q ∷ ps) qs k = refl

  split_by-join : (xss : List (List A)) → split_by p (join xss) ≡ glue_all (map (split_by p) xss)
  split_by-join [] = refl
  split_by-join (xs ∷ []) = refl
  split_by-join (xs ∷ ys ∷ xss) =
      split_by-append xs (join (ys ∷ xss)) ∙ ap (glue (split_by p xs)) (split_by-join (ys ∷ xss))

-- What is written to a stream: a text literal, or the text of a value.
pub data Piece : Type 0 where
  lit : String → Piece
  val : Bytes → Piece

abbrev pub text : Piece → Bytes
text (lit s) = codes s
text (val s) = s

abbrev pub write : List Piece → Bytes
write pieces = join (map text pieces)

-- A longer last value makes the text longer by the same.
pub write-last :
    (ps : List Piece) (s more : Bytes)
    → write (ps ++ val (s ++ more) ∷ []) ≡ write (ps ++ val s ∷ []) ++ more
write-last [] s more = refl
write-last (q ∷ []) s more = sym (append_assoc (text q) s more)
write-last (q ∷ r ∷ ps) s more =
    ap (◌++◌ (text q)) (write-last (r ∷ ps) s more)
    ∙ sym (append_assoc (text q) (write (r ∷ ps ++ val s ∷ [])) more)

module _ (p : ℕ → Bool) where
  -- No value holds an accepted item.
  abbrev pub Plain : List Piece → Type 0
  Plain [] = Unit {0}
  Plain (lit s ∷ ps) = Plain ps
  Plain (val s ∷ ps) = (any p s ≡ false) × Plain ps

  abbrev pub cut : Piece → List Bytes
  cut (lit s) = split_by p (codes s)
  cut (val s) = s ∷ []

  cuts : (ps : List Piece) → Plain ps → map (split_by p) (map text ps) ≡ map cut ps
  cuts [] h = refl
  cuts (lit s ∷ ps) h = ap (◌∷◌ (split_by p (codes s))) (cuts ps h)
  cuts (val s ∷ ps) (h, k) = λ i. split_by-plain p s h i ∷ cuts ps k i

  -- Only the literals are cut.
  pub split_by-write : (ps : List Piece) → Plain ps → split_by p (write ps) ≡ glue_all (map cut ps)
  split_by-write ps h = split_by-join p (map text ps) ∙ ap glue_all (cuts ps h)
