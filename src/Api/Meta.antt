-- ===== src/Api/Meta.antt =====
-- What the API kinds share: instants, texts with a format, `error` values and status conditions
-- (the types of k8s.io/apimachinery that api/v1alpha1 embeds).
use arkonis_operator.Prelude.{ℕ, String, ◌≡◌, ◌⊎◌, inl, inr, refl}
use arkonis_operator.Prelude.Words.{Int64}

-- An instant, in nanoseconds.
abbrev pub Time : Type 0
Time = ℕ

-- A text that the program builds: a literal, or a format with its arguments, as `fmt.Sprintf` and
-- `fmt.Errorf` take them. An `error` is such a text.
mutual
  pub data Message : Type 0 where
    text : String → Message
    format : String → Args → Message

  pub data Args : Type 0 where
    end : Args
    str : String → Args → Args
    int : Int64 → Args → Args
    msg : Message → Args → Args

-- A Go call that returns a value and an `error`.
pub data Result {ℓ} (A : Type ℓ) : Type ℓ where
  ok : A → Result A
  err : Message → Result A

infixl 5 ◌>>=◌
abbrev pub ◌>>=◌ {ℓ κ} : {A : Type ℓ} {B : Type κ} → Result A → (A → Result B) → Result B
ok a >>= f = f a
err e >>= f = err e

pub Result-cases {ℓ} :
    {A : Type ℓ} (r : Result A) → ((a : A) × (r ≡ ok a)) ⊎ ((e : Message) × (r ≡ err e))
Result-cases (ok a) = inl (a, refl)
Result-cases (err e) = inr (e, refl)

pub ok_inj {ℓ} : {A : Type ℓ} {a b : A} → ok a ≡ ok b → a ≡ b
ok_inj e = cc e

pub data ConditionStatus : Type 0 where
  condition_true condition_false condition_unknown : ConditionStatus

-- `metav1.Condition`, without its `LastTransitionTime`, which nothing reads.
pub record Condition : Type 0 where
  pub type : String
  pub status : ConditionStatus
  pub observed_generation : Int64
  pub reason : String
  pub message : Message
