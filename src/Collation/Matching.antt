-- ===== src/Collation/Matching.antt =====
-- src/efi/protocols/unicode_collation.rs: MetaiMatch against the meaning of a pattern.
use crab_efi.Prelude.{
  ℕ, Bool, true, ◌&&◌, List, [], ◌∷◌, ◌≡◌, ◌≢◌, refl, ◌==◌, ◌↔◌, arith, Bool-cases, inl, inr, subst,
}
use crab_efi.Collation.{
  char_to_lower, star, question, metai_match, match_at_some, after_star, unit_matches, tail_units,
}

-- What a pattern matches: `*` any units, `?` any unit, another unit itself in either case.
pub data Matches : List ℕ → List ℕ → Type 0 where
  done : Matches [] []
  stop : {s p : List ℕ} → Matches s p → Matches s (star ∷ p)
  skip : {c : ℕ} {s p : List ℕ} → Matches s (star ∷ p) → Matches (c ∷ s) (star ∷ p)
  any : {c : ℕ} {s p : List ℕ} → Matches s p → Matches (c ∷ s) (question ∷ p)
  unit :
      {c d : ℕ} {s p : List ℕ}
      → d ≢ star
      → char_to_lower c ≡ char_to_lower d
      → Matches s p
      → Matches (c ∷ s) (d ∷ p)

lower-star : (d : ℕ) → (char_to_lower d == star) ≡ (d == star)
unfolding char_to_lower
lower-star d = ground arith

lower-question : (d : ℕ) → (char_to_lower d == question) ≡ (d == question)
unfolding char_to_lower
lower-question d = ground arith

star-Matches_all : (s : List ℕ) → Matches s (star ∷ [])
star-Matches_all [] = stop done
star-Matches_all (c ∷ s) = skip (star-Matches_all s)

match_at_some-Matches :
    (p s : List ℕ)
    → ((t : List ℕ) → metai_match t p ≡ true → Matches t p)
    → match_at_some (λ t. metai_match t p) s ≡ true
    → Matches s (star ∷ p)
unfolding match_at_some
match_at_some-Matches p [] f e = stop (f [] e)
match_at_some-Matches p (c ∷ s) f e = elim (Bool-cases (metai_match (c ∷ s) p)) [
  | inl here ↦ stop (f (c ∷ s) here)
  | inr miss ↦ skip (match_at_some-Matches p s f (ground (arith, miss, e)))
]

after_star-Matches :
    (p s : List ℕ)
    → ((t : List ℕ) → metai_match t p ≡ true → Matches t p)
    → after_star (λ t. metai_match t p) s p ≡ true
    → Matches s (star ∷ p)
after_star-Matches [] s f e = star-Matches_all s
after_star-Matches (d ∷ p) s f e = match_at_some-Matches (d ∷ p) s f e

plain-Matches :
    (d : ℕ) (p s : List ℕ)
    → d ≢ star
    → (metai_match (tail_units s) p ≡ true → Matches (tail_units s) p)
    → unit_matches d s && metai_match (tail_units s) p ≡ true
    → Matches s (d ∷ p)
plain-Matches d p [] other f e = ground (arith, e)
plain-Matches d p (c ∷ s) other f e = elim (Bool-cases (d == question)) [
  | inl wild ↦
      let is_question : question ≡ d = ground (arith, wild) in
      subst (λ x. Matches (c ∷ s) (x ∷ p)) is_question (any (f (ground (arith, e))))
  | inr exact ↦ unit other (ground (arith, exact, lower-question d, e)) (f (ground (arith, e)))
]

metai_match-Matches : (p s : List ℕ) → metai_match s p ≡ true → Matches s p
unfolding metai_match
metai_match-Matches [] [] e = done
metai_match-Matches [] (c ∷ s) e = ground (arith, e)
metai_match-Matches (d ∷ p) s e = elim (Bool-cases (d == star)) [
  | inl wild ↦
      let is_star : star ≡ d = ground (arith, wild) in
      subst (λ x. Matches s (x ∷ p)) is_star
        (after_star-Matches p s (metai_match-Matches p) (ground (arith, wild, lower-star d, e)))
  | inr plain ↦
      let tests : unit_matches d s && metai_match (tail_units s) p ≡ true =
        ground (arith, plain, lower-star d, e) in
      plain-Matches d p s (λ h. ground (arith, plain, h)) (metai_match-Matches p (tail_units s))
        tests
]

match_at_some-here : (f : List ℕ → Bool) (s : List ℕ) → f s ≡ true → match_at_some f s ≡ true
unfolding match_at_some
match_at_some-here f [] e = e
match_at_some-here f (c ∷ s) e = rw e refl

match_at_some-later :
    (f : List ℕ → Bool) (c : ℕ) (s : List ℕ)
    → match_at_some f s ≡ true
    → match_at_some f (c ∷ s) ≡ true
unfolding match_at_some
match_at_some-later f c s e = ground (arith, e)

-- Behind a `*` the code tries each place.
star-here : (p s : List ℕ) → metai_match s p ≡ true → metai_match s (star ∷ p) ≡ true
unfolding metai_match char_to_lower
star-here [] s e = refl
star-here (d ∷ p) s e = match_at_some-here (λ t. metai_match t (d ∷ p)) s e

star-later :
    (p s : List ℕ) (c : ℕ) → metai_match s (star ∷ p) ≡ true → metai_match (c ∷ s) (star ∷ p) ≡ true
unfolding metai_match char_to_lower
star-later [] s c e = refl
star-later (d ∷ p) s c e = match_at_some-later (λ t. metai_match t (d ∷ p)) c s e

question-any :
    (p s : List ℕ) (c : ℕ) → metai_match s p ≡ true → metai_match (c ∷ s) (question ∷ p) ≡ true
unfolding metai_match char_to_lower
question-any p s c e = e

Matches-metai_match : {s p : List ℕ} → Matches s p → metai_match s p ≡ true
unfolding metai_match
Matches-metai_match done = refl
Matches-metai_match (stop {s = s} {p = p} m) = star-here p s (Matches-metai_match m)
Matches-metai_match (skip {c = c} {s = s} {p = p} m) = star-later p s c (Matches-metai_match m)
Matches-metai_match (any {c = c} {s = s} {p = p} m) = question-any p s c (Matches-metai_match m)
Matches-metai_match (unit {c = c} {d = d} other same m) =
    ground (arith, other, lower-star d, same, Matches-metai_match m)

-- MetaiMatch answers true exactly when the string matches the pattern, in which `*` stands for any
-- units, `?` for any one unit, and another unit for itself in either case.
pub metai_match_lem : (s p : List ℕ) → (metai_match s p ≡ true) ↔ Matches s p
metai_match_lem s p = (metai_match-Matches p s, Matches-metai_match)
