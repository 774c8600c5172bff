-- ===== src/Agent/Defaults.antt =====
-- What `Default` of api/v1/instanaagent_types.go guarantees to the code that reads the resource.
use instana_agent_operator.Prelude.{
  ℕ, String, ◌≡◌, refl, Bool, true, Option, none, some, arith, eq_iff, string_comparable,
}
use instana_agent_operator.Optional.{value_or_default, string_zero, nat_zero, pointer_zero}
use instana_agent_operator.Agent.{InstanaAgent, IntOrString, default_rolling_update, default}

-- The pointers that the builders follow without a test are not nil.
pub record IsComplete (a : InstanaAgent) : Type 0 where
  pub use_secret_mounts : (b : Bool) × (a.spec.use_secret_mounts ≡ some b)
  pub otel : (b : Bool) × (a.spec.open_telemetry.enabled ≡ some b)
  pub grpc : (b : Bool) × (a.spec.open_telemetry.grpc.enabled ≡ some b)
  pub http : (b : Bool) × (a.spec.open_telemetry.http.enabled ≡ some b)

value_or_default-some {ℓ} :
    {A : Type ℓ} (p : Option A) (a : A) → (b : A) × (value_or_default p (some a) ≡ some b)
unfolding value_or_default
value_or_default-some none a = (a, refl)
value_or_default-some (some b) a = (b, refl)

value_or_default_ptr {ℓ} :
    {A : Type ℓ} (p q : Option A)
    → (b : A) × (q ≡ some b)
    → (b : A) × (value_or_default p q ≡ some b)
unfolding value_or_default
value_or_default_ptr none q h = h
value_or_default_ptr (some b) q h = (b, refl)

-- After `Default`, UseSecretMounts and the three OpenTelemetry switches are not nil.
pub default-IsComplete : (a : InstanaAgent) → IsComplete (default a)
unfolding default
default-IsComplete a =
    let o = a.spec.open_telemetry in
    let enabled = value_or_default-some o.enabled true in
    record {
      use_secret_mounts = value_or_default-some a.spec.use_secret_mounts true;
      otel = enabled;
      grpc = value_or_default_ptr o.grpc.enabled (value_or_default o.enabled (some true)) enabled;
      http = value_or_default_ptr o.http.enabled (value_or_default o.enabled (some true)) enabled;
    }

value_or_default_idem_string :
    (s d : String) → value_or_default (value_or_default s d) d ≡ value_or_default s d
unfolding value_or_default
value_or_default_idem_string s d = ground (arith, eq_iff s "", eq_iff d "")

value_or_default_idem_ptr {ℓ} :
    {A : Type ℓ} (p q : Option A) → value_or_default (value_or_default p q) q ≡ value_or_default p q
unfolding value_or_default
value_or_default_idem_ptr none none = refl
value_or_default_idem_ptr none (some a) = refl
value_or_default_idem_ptr (some b) q = refl

value_or_default_idem_nat :
    (n d : ℕ) → value_or_default (value_or_default n d) d ≡ value_or_default n d
unfolding value_or_default
value_or_default_idem_nat n d = ground arith

default_rolling_update_idem :
    (p : Option (Option IntOrString))
    → default_rolling_update (default_rolling_update p) ≡ default_rolling_update p
unfolding value_or_default
default_rolling_update_idem none = refl
default_rolling_update_idem (some none) = refl
default_rolling_update_idem (some (some m)) = refl

-- `Default` changes nothing on a resource that it has completed.
pub default_idem : (a : InstanaAgent) → default (default a) ≡ default a
unfolding default
default_idem a = simp (
  value_or_default_idem_string, value_or_default_idem_ptr, value_or_default_idem_nat,
  default_rolling_update_idem,
)
