-- ===== src/Session/Lists.antt =====
-- What pushing, slicing and pulling do to a stored list.
use uam_backend.Prelude.{
  Text, ℕ, List, ◌≡◌, ◌≢◌, length, ◌≤◌, ◌<◌, false, arith, drop, ◌++◌, ◌∷◌, text_eq_iff,
  length-drop, [], suc, ◌-◌, true, zero, refl, text_eq_refl, length-append,
}
use uam_backend.Session.{contains, without, keep_last}

pub contains-without_self : (x : Text) (xs : List Text) → contains x (without x xs) ≡ false
unfolding contains without
contains-without_self x [] = refl
contains-without_self x (y ∷ ys) = ground (arith, contains-without_self x ys)

pub contains-without_ne :
    (x y : Text) (xs : List Text) → x ≢ y → contains y (without x xs) ≡ contains y xs
unfolding contains without
contains-without_ne x y [] n = refl
contains-without_ne x y (z ∷ zs) n =
    ground (arith, contains-without_ne x y zs n, text_eq_iff z x, text_eq_iff z y)

pub length-without-le : (x : Text) (xs : List Text) → length (without x xs) ≤ length xs
unfolding without
length-without-le x [] = omega arith
length-without-le x (y ∷ ys) = ground (arith, length-without-le x ys)

pub length-keep_last-le : (n : ℕ) (xs : List Text) → length (keep_last n xs) ≤ n
unfolding keep_last
length-keep_last-le n xs = omega (arith, length-drop (length xs - n) xs)

contains-drop_last :
    (k : ℕ) (x : Text) (xs : List Text) → k ≤ length xs → contains x (drop k (xs ++ x ∷ [])) ≡ true
unfolding contains
contains-drop_last zero x [] h = ground (arith, text_eq_refl x)
contains-drop_last zero x (y ∷ ys) h = ground (arith, contains-drop_last zero x ys)
contains-drop_last (suc k) x [] h = absurd (omega arith)
contains-drop_last (suc k) x (y ∷ ys) h = contains-drop_last k x ys (omega arith)

-- What was pushed last is kept.
pub contains-keep_last :
    (n : ℕ) (x : Text) (xs : List Text) → 0 < n → contains x (keep_last n (xs ++ x ∷ [])) ≡ true
unfolding keep_last
contains-keep_last n x xs h =
    contains-drop_last (length (xs ++ x ∷ []) - n) x xs (omega (arith, length-append xs (x ∷ [])))

contains-drop :
    (k : ℕ) (x : Text) (xs : List Text) → contains x xs ≡ false → contains x (drop k xs) ≡ false
unfolding contains
contains-drop zero x xs h = h
contains-drop (suc k) x [] h = refl
contains-drop (suc k) x (y ∷ ys) h = contains-drop k x ys (ground arith)

pub contains-append_false :
    (x : Text) (xs ys : List Text)
    → contains x xs ≡ false
    → contains x ys ≡ false
    → contains x (xs ++ ys) ≡ false
unfolding contains
contains-append_false x [] ys h k = k
contains-append_false x (y ∷ xs) ys h k = ground (arith, contains-append_false x xs ys)

pub contains-append_right :
    (x : Text) (xs ys : List Text) → contains x ys ≡ true → contains x (xs ++ ys) ≡ true
unfolding contains
contains-append_right x [] ys h = h
contains-append_right x (y ∷ xs) ys h = ground (arith, contains-append_right x xs ys)
