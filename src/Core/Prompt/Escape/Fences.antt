-- ===== src/Core/Prompt/Escape/Fences.antt =====
-- Which code fences `escape_fences` takes out.
use jenezis.Prelude.{
  ℕ, zero, suc, ◌≤◌, ◌≡◌, refl, true, ◌&&◌, [], ◌∷◌, ◌+◌, ◌*◌, inl, inr, Bool-cases, arith, nat_eq,
  Text, codes, contains, starts_with, if◌then◌else◌, ltb,
}
use jenezis.Core.Prompt.Escape.{backtick, escape_fences}

-- How many backticks the text begins with.
abbrev pub run : Text → ℕ
run [] = 0
run (c ∷ s) = let rest = run s in if nat_eq c backtick then suc rest else 0

-- No place of the text begins a run of more than three backticks.
abbrev pub HasShortRuns : Text → Type 0
HasShortRuns [] = Unit
HasShortRuns (c ∷ s) = (run (c ∷ s) ≤ 3) × HasShortRuns s

run-escape_fences : (s : Text) → run (escape_fences s) ≡ (if ltb 2 (run s) then 1 else run s)
unfolding escape_fences
run-escape_fences [] = refl
run-escape_fences (a ∷ []) = ground arith
run-escape_fences (a ∷ b ∷ []) = ground arith
run-escape_fences (a ∷ b ∷ c ∷ s) = elim (Bool-cases (nat_eq a backtick)) [
  | inr fa ↦ ground arith
  | inl ta ↦ elim (Bool-cases (nat_eq b backtick)) [
    | inr fb ↦ ground (arith, run-escape_fences (b ∷ c ∷ s))
    | inl tb ↦ elim (Bool-cases (nat_eq c backtick)) [
      | inr fc ↦ ground (arith, run-escape_fences (b ∷ c ∷ s))
      | inl tc ↦ ground arith
    ]
  ]
]

run-escape_fences-le : (s : Text) → run (escape_fences s) ≤ 2
run-escape_fences-le s = ground (arith, run-escape_fences s)

-- Where the code replaces code fences, at most three backticks in a row are left.
pub escape_fences-HasShortRuns : (s : Text) → HasShortRuns (escape_fences s)
unfolding escape_fences
escape_fences-HasShortRuns [] = tt
escape_fences-HasShortRuns (a ∷ []) = ground arith
escape_fences-HasShortRuns (a ∷ b ∷ []) = ground arith
escape_fences-HasShortRuns (a ∷ b ∷ c ∷ s) =
    elim (Bool-cases (nat_eq a backtick && (nat_eq b backtick && nat_eq c backtick))) [
      | inl fence ↦ rw fence (
        omega arith,
        (
          omega arith,
          (
            omega arith,
            (omega arith, (omega (arith, run-escape_fences-le s), escape_fences-HasShortRuns s)),
          ),
        ),
      )
      | inr other ↦
          rw other (
            ground (arith, run-escape_fences-le (b ∷ c ∷ s)),
            escape_fences-HasShortRuns (b ∷ c ∷ s),
          )
    ]

abbrev pub ticks : ℕ → Text → Text
ticks zero s = s
ticks (suc n) s = backtick ∷ ticks n s

starts_of_run : (s : Text) → 2 ≤ run s → starts_with (backtick ∷ backtick ∷ []) s ≡ true
unfolding starts_with
starts_of_run [] h = absurd (omega arith)
starts_of_run (a ∷ []) h = absurd (ground arith)
starts_of_run (a ∷ b ∷ s) h = ground arith

contains-cons : (p : Text) (c : ℕ) (s : Text) → contains p s ≡ true → contains p (c ∷ s) ≡ true
unfolding contains
contains-cons p c s h = ground arith

fence_ahead :
    (s : Text)
    → run s ≡ 0
    → contains (codes "```") (backtick ∷ escape_fences (backtick ∷ backtick ∷ s)) ≡ true
unfolding contains starts_with
fence_ahead s h = ground (
  arith,
  run-escape_fences (backtick ∷ backtick ∷ s),
  starts_of_run (escape_fences (backtick ∷ backtick ∷ s)),
)

-- The fence ``` survives in every text that begins with a run of exactly 5, 8, 11, … backticks: the
-- replacement of the last three ends in a backtick, and the two that are left follow it.
pub contains-escape_fences :
    (k : ℕ) (s : Text)
    → run s ≡ 0
    → contains (codes "```") (escape_fences (ticks (k * 3 + 5) s)) ≡ true
unfolding escape_fences
contains-escape_fences zero s h =
    let fence = codes "```" in
    contains-cons fence backtick _ (
      contains-cons fence 32 _
        (contains-cons fence backtick _ (contains-cons fence 32 _ (fence_ahead s h))))
contains-escape_fences (suc k) s h =
    let fence = codes "```" in
    let e : suc k * 3 + 5 ≡ suc (suc (suc (k * 3 + 5))) = omega arith in
    rw e (
      contains-cons fence backtick _ (
        contains-cons fence 32 _ (
          contains-cons fence backtick _ (
            contains-cons fence 32 _
              (contains-cons fence backtick _ (contains-escape_fences k s h))))))
