-- ===== src/Session/Keys.antt =====
-- internal/repositories/session/session_repo.go: what a pipeline of commands leaves of the keys.
use yourz_gift.Base.{
  ◌⊎◌, false, ◌==◌, eq_iff, Bool-cases, String, ◌≡◌, ◌≢◌, refl, ap, List, [], ◌∷◌, ok, Exec, inl,
  inr, arith, Result-cases,
}
use yourz_gift.Redis.{key, pipeline}

tail : String → String
tail String.[] = String.[]
tail (String.◌∷◌ c s) = s

-- Keys with the same prefix are level only where the names are.
pub key-same : (prefix a b : String) → key prefix a ≡ key prefix b → a ≡ b
unfolding tail
key-same String.[] a b e = e
key-same (String.◌∷◌ c prefix) a b e = key-same prefix a b (ap tail e)

pub key-apart : (prefix a b : String) → a ≢ b → key prefix a ≢ key prefix b
key-apart prefix a b apart e = apart (key-same prefix a b e)

module _ {S : Type 0} where
  -- The state that a list of commands leaves.
  abbrev pub run_all : List (Exec S (Unit {0})) → S → S
  run_all [] s = s
  run_all (c ∷ cs) s = run_all cs (c s).1

  -- Each command answers without an error, on the state that those before it leave.
  abbrev pub AllOk : List (Exec S (Unit {0})) → S → Type 0
  AllOk [] s = Unit
  AllOk (c ∷ cs) s = ((c s).0 ≡ ok tt) × AllOk cs (c s).1

  pub pipeline-AllOk :
      (cs : List (Exec S (Unit {0}))) (s : S) → (pipeline cs s).0 ≡ ok tt → AllOk cs s
  unfolding pipeline
  pipeline-AllOk [] s e = tt
  pipeline-AllOk (c ∷ cs) s e = elim (Result-cases (c s).0) [
    | inl (tt, f) ↦ (f, pipeline-AllOk cs (c s).1 (ground arith))
    | inr (x, f) ↦ absurd (ground arith)
  ]

  -- Whatever a pipeline answers, all its commands were run.
  pub pipeline-run_all : (cs : List (Exec S (Unit {0}))) (s : S) → (pipeline cs s).1 ≡ run_all cs s
  unfolding pipeline
  pipeline-run_all [] s = refl
  pipeline-run_all (c ∷ cs) s = elim (Result-cases (c s).0) [
    | inl (tt, f) ↦ ground (arith, pipeline-run_all cs (c s).1)
    | inr (x, f) ↦ ground (arith, pipeline-run_all cs (c s).1)
  ]

-- Two names are level, or what holds of different ones.
pub unless_same : {P : Type 0} (a b : String) → (a ≢ b → P) → (a ≡ b) ⊎ P
unless_same a b f = elim (Bool-cases (a == b)) [
  | inl t ↦ inl ((eq_iff a b).0 t)
  | inr t ↦ inr (f (λ e. differs e t))
]
  where
    differs : a ≡ b → (a == b) ≡ false → ⊥
    differs e t = let s = (eq_iff a b).1 e in absurd (cc)
