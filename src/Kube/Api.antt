-- ===== src/Kube/Api.antt =====
-- The API server as the operator sees it: code outside the repository, so a parameter. Each call
-- takes the state of the world and returns an answer with the next state. The calls made are
-- recorded beside the world, so that theorems can speak of what was sent and in which order.
use instana_agent_operator.Prelude.{
  ℕ, String, ◌≡◌, refl, sym, ap, ◌∙◌, Bool, false, Option, none, some, List, [], ◌∷◌, ◌++◌, All,
  All-append,
}
use mathlib.Core.List.{append-nil, append_assoc}
use instana_agent_operator.Errors.{Error}
use instana_agent_operator.Kube.{GroupVersionKind, ObjectKey, Object}

pub data Call : Type 0 where
  -- a server-side apply patch; the flag is `DryRunAll`
  apply_call : Bool → Object → Call
  delete_call : GroupVersionKind → ObjectKey → Call
  get_call : GroupVersionKind → ObjectKey → Call
  -- a merge patch, of the object or of its status
  patch_call : Object → Call
  status_call : Object → Call

-- What the server does, over worlds of type `W`; `none` is the nil error.
pub record Server (W : Type 0) : Type 0 where
  -- the object comes back as the server answered it
  pub apply : Bool → Object → W → Option Error × Object × W
  pub delete : GroupVersionKind → ObjectKey → W → Option Error × W
  pub get : GroupVersionKind → ObjectKey → W → Option Error × Object × W
  pub patch : Object → W → Option Error × W
  -- k8serrors.IsNotFound and k8serrors.IsConflict
  pub is_not_found : Error → Bool
  pub is_conflict : Error → Bool
  -- time.Now and time.Sleep
  pub now : W → ℕ
  pub sleep : ℕ → W → W
  -- err.Error()
  pub message : Error → String

-- The world with the record of the calls, the latest last.
pub record Cluster (W : Type 0) : Type 0 where
  pub world : W
  pub calls : List Call

abbrev pub nil_or : (Error → Bool) → Option Error → Bool
nil_or p none = false
nil_or p (some e) = p e

module _ {W : Type 0} (server : Server W) where
  abbrev pub send_apply : Bool → Object → Cluster W → Option Error × Object × Cluster W
  send_apply dry o c =
      let (err, o', w) = server.apply dry o c.world in
      (err, o', record { world = w; calls = c.calls ++ apply_call dry o ∷ [] })

  abbrev pub send_delete : GroupVersionKind → ObjectKey → Cluster W → Option Error × Cluster W
  send_delete gvk key c =
      let (err, w) = server.delete gvk key c.world in
      (err, record { world = w; calls = c.calls ++ delete_call gvk key ∷ [] })

  abbrev pub send_get : GroupVersionKind → ObjectKey → Cluster W → Option Error × Object × Cluster W
  send_get gvk key c =
      let (err, o, w) = server.get gvk key c.world in
      (err, o, record { world = w; calls = c.calls ++ get_call gvk key ∷ [] })

  abbrev pub send_patch : Object → Cluster W → Option Error × Cluster W
  send_patch o c =
      let (err, w) = server.patch o c.world in
      (err, record { world = w; calls = c.calls ++ patch_call o ∷ [] })

  -- time.Sleep
  abbrev pub sleep_for : ℕ → Cluster W → Cluster W
  sleep_for d c = record c { world = server.sleep d c.world }

-- From `c` to `c'` only calls that satisfy `P` were sent.
pub record SendsOnly {W : Type 0} (P : Call → Type 0) (c c' : Cluster W) : Type 0 where
  pub sent : List Call
  pub extends : c'.calls ≡ c.calls ++ sent
  pub each : All P sent

module _ {W : Type 0} {P : Call → Type 0} where
  -- a change of the world alone
  pub SendsOnly-world : (c : Cluster W) (w : W) → SendsOnly P c (record c { world = w })
  SendsOnly-world c w = record { sent = []; extends = sym (append-nil c.calls); each = tt }

  pub SendsOnly-refl : (c : Cluster W) → SendsOnly P c c
  SendsOnly-refl c = SendsOnly-world c c.world

  pub SendsOnly-trans : {a b c : Cluster W} → SendsOnly P a b → SendsOnly P b c → SendsOnly P a c
  SendsOnly-trans {a} p q = record {
    sent = p.sent ++ q.sent;
    extends = q.extends ∙ ap (λ l. l ++ q.sent) p.extends ∙ append_assoc a.calls p.sent q.sent;
    each = All-append P p.sent q.sent p.each q.each;
  }

  -- one call
  pub SendsOnly-one :
      (c : Cluster W) (call : Call) (w : W)
      → P call
      → SendsOnly P c (record { world = w; calls = c.calls ++ call ∷ [] })
  SendsOnly-one c call w h = record { sent = call ∷ []; extends = refl; each = (h, tt) }

pub SendsOnly-calls :
    {W : Type 0} {P : Call → Type 0} {c c' : Cluster W} (call : Call)
    → c'.calls ≡ c.calls ++ call ∷ []
    → P call
    → SendsOnly P c c'
SendsOnly-calls call e h = record { sent = call ∷ []; extends = e; each = (h, tt) }

All-mono {ℓ} :
    {A : Type ℓ} {P Q : A → Type 0} (xs : List A) → ((a : A) → P a → Q a) → All P xs → All Q xs
All-mono [] f h = tt
All-mono (x ∷ xs) f (p, h) = (f x p, All-mono xs f h)

pub SendsOnly-mono :
    {W : Type 0} {P Q : Call → Type 0} {c c' : Cluster W}
    → ((call : Call) → P call → Q call)
    → SendsOnly P c c'
    → SendsOnly Q c c'
SendsOnly-mono f h = record { sent = h.sent; extends = h.extends; each = All-mono h.sent f h.each }
