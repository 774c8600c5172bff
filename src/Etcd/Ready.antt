-- ===== src/Etcd/Ready.antt =====
-- Which targets controllers/etcd_discoverer.go builds from an endpoint slice.
use instana_agent_operator.Prelude.{
  ℕ, String, ◌≡◌, ◌≢◌, refl, some, Option-cases, Bool-cases, ◌==◌, string_comparable, eq_iff, sym,
  ap, ◌∙◌, ◌⊎◌, ◌↔◌, Bool, true, false, not, inl, inr, List, [], ◌∷◌, ◌++◌, map, Memᴰ, Mem-map,
  Mem-append_left, Mem-append_right, Mem-append_cases, arith, if◌then◌else◌,
}
use instana_agent_operator.Prelude.Text.{◌<>◌, itoa}
use instana_agent_operator.Etcd.{
  Endpoint, EndpointSlice, SlicePort, target, slice_port, is_ready, endpoint_targets,
  build_targets_from_endpoint_slice,
}

Mem-map_cases :
    (f : String → String) (t : String) (xs : List String)
    → Memᴰ t (map f xs)
    → (x : String) × Memᴰ x xs × (t ≡ f x)
Mem-map_cases f t [] h = elim h [ ]
Mem-map_cases f t (x ∷ xs) (Memᴰ.head e) = (x, Memᴰ.head refl, e)
Mem-map_cases f t (x ∷ xs) (Memᴰ.tail h) =
    let (y, m, e) = Mem-map_cases f t xs h in (y, Memᴰ.tail m, e)

-- `t` is the target of an address of a ready endpoint
abbrev pub IsTarget : String → ℕ → List Endpoint → String → Type 0
IsTarget scheme port endpoints t =
    (e : Endpoint) × (address : String) × Memᴰ e endpoints
    × (is_ready e ≡ true)
    × Memᴰ address e.addresses
    × (t ≡ target scheme port address)

IsTarget-later :
    (scheme : String) (port : ℕ) (e : Endpoint) (es : List Endpoint) (t : String)
    → IsTarget scheme port es t
    → IsTarget scheme port (e ∷ es) t
IsTarget-later scheme port e es t (e', address, mem, ready, at, eq) =
    (e', address, Memᴰ.tail mem, ready, at, eq)

-- A list that is left out unless the test holds.
Mem-kept_cases :
    (t : String) (b : Bool) (xs rest : List String)
    → Memᴰ t (if not b then rest else xs ++ rest)
    → ((b ≡ true) × Memᴰ t xs) ⊎ Memᴰ t rest
Mem-kept_cases t true xs rest h = elim (Mem-append_cases xs rest h) [
  | inl l ↦ inl (refl, l)
  | inr r ↦ inr r
]
Mem-kept_cases t false xs rest h = inr h

Mem-kept :
    (t : String) (b : Bool) (xs rest : List String)
    → b ≡ true
    → Memᴰ t xs
    → Memᴰ t (if not b then rest else xs ++ rest)
Mem-kept t true xs rest h mem = Mem-append_left xs rest mem
Mem-kept t false xs rest h mem = ground (arith, h)

Mem-kept_rest :
    (t : String) (b : Bool) (xs rest : List String)
    → Memᴰ t rest
    → Memᴰ t (if not b then rest else xs ++ rest)
Mem-kept_rest t true xs rest mem = Mem-append_right xs rest mem
Mem-kept_rest t false xs rest mem = mem

IsTarget-endpoint_targets :
    (scheme : String) (port : ℕ) (endpoints : List Endpoint) (t : String)
    → Memᴰ t (endpoint_targets scheme port endpoints)
    → IsTarget scheme port endpoints t
unfolding endpoint_targets
IsTarget-endpoint_targets scheme port [] t h = elim h [ ]
IsTarget-endpoint_targets scheme port (e ∷ es) t h =
    let f = target scheme port in
    elim (Mem-kept_cases t (is_ready e) (map f e.addresses) (endpoint_targets scheme port es) h) [
      | inl (ready, mem) ↦
          let (address, at, eq) = Mem-map_cases f t e.addresses mem in
          (e, address, Memᴰ.head refl, ready, at, eq)
      | inr later ↦
          IsTarget-later scheme port e es t (IsTarget-endpoint_targets scheme port es t later)
    ]

Mem-endpoint_targets :
    (scheme : String) (port : ℕ) (endpoints : List Endpoint) (t : String)
    → IsTarget scheme port endpoints t
    → Memᴰ t (endpoint_targets scheme port endpoints)
unfolding endpoint_targets
Mem-endpoint_targets scheme port [] t (e, address, mem, ready, at, eq) = elim mem [ ]
Mem-endpoint_targets scheme port (e ∷ es) t (e', address, Memᴰ.head p, ready, at, eq) =
    let f = target scheme port in
    Mem-kept t (is_ready e) (map f e.addresses) (endpoint_targets scheme port es)
      (ap is_ready (sym p) ∙ ready) (rw eq (Mem-map f (rw (sym p) at)))
Mem-endpoint_targets scheme port (e ∷ es) t (e', address, Memᴰ.tail mem, ready, at, eq) =
    Mem-kept_rest t (is_ready e) (map (target scheme port) e.addresses)
      (endpoint_targets scheme port es)
      (Mem-endpoint_targets scheme port es t (e', address, mem, ready, at, eq))

-- The port of a slice: that of its first port that is named metrics and has a number, or the given
-- one if there is none.
abbrev pub IsNumbered : SlicePort → ℕ → Type 0
IsNumbered p port = (p.name ≡ some "metrics") × (p.port ≡ some port)

abbrev pub IsSlicePort : ℕ → List SlicePort → ℕ → Type 0
IsSlicePort metrics_port [] port = port ≡ metrics_port
IsSlicePort metrics_port (p ∷ ports) port =
    IsNumbered p port ⊎ (((n : ℕ) → ¬ (IsNumbered p n)) × IsSlicePort metrics_port ports port)

slice_port-IsSlicePort :
    (metrics_port : ℕ) (ports : List SlicePort)
    → IsSlicePort metrics_port ports (slice_port metrics_port ports)
unfolding slice_port
slice_port-IsSlicePort metrics_port [] = refl
slice_port-IsSlicePort metrics_port (p ∷ ports) =
    let later = slice_port-IsSlicePort metrics_port ports in
    elim (Option-cases p.name) [
      | inl e ↦ rw e (inr ((λ n (named, _). ground (arith, named, e)), later))
      | inr (name, e) ↦ elim (Bool-cases (name == "metrics")) [
        | inr other ↦
            rw (e, other)
              (inr
                ((λ n (named, _). ground (arith, named, e, other, eq_iff name "metrics")), later))
        | inl same ↦ elim (Option-cases p.port) [
          | inl missing ↦
              rw (e, same, missing)
                (inr ((λ n (_, numbered). ground (arith, numbered, missing)), later))
          | inr (n, found) ↦
              rw (e, same, found) (inl (ap some ((eq_iff name "metrics").0 same), refl))
        ]
      ]
    ]

IsSlicePort-slice_port :
    (metrics_port : ℕ) (ports : List SlicePort) (port : ℕ)
    → IsSlicePort metrics_port ports port
    → port ≡ slice_port metrics_port ports
unfolding slice_port
IsSlicePort-slice_port metrics_port [] port h = h
IsSlicePort-slice_port metrics_port (p ∷ ports) port (inl (named, numbered)) =
    ground (arith, named, numbered, eq_iff "metrics" "metrics")
IsSlicePort-slice_port metrics_port (p ∷ ports) port (inr (skip, later)) =
    let same = IsSlicePort-slice_port metrics_port ports port later in
    elim (Option-cases p.name) [
      | inl e ↦ ground (arith, e, same)
      | inr (name, e) ↦ elim (Bool-cases (name == "metrics")) [
        | inr other ↦ ground (arith, e, other, same)
        | inl metrics ↦ elim (Option-cases p.port) [
          | inl missing ↦ ground (arith, e, metrics, missing, same)
          | inr (n, found) ↦
              elim (skip n (e ∙ ap some ((eq_iff name "metrics").0 metrics), found)) [ ]
        ]
      ]
    ]

is_ready_iff : (e : Endpoint) → (is_ready e ≡ true) ↔ (e.ready ≢ some false)
is_ready_iff e = elim (Option-cases e.ready) [
  | inl missing ↦ ground (arith, missing)
  | inr (b, known) ↦ ground (arith, known)
]

-- A text is among the targets of an endpoint slice exactly if it is scheme://address:port/metrics
-- for an address of one of its endpoints whose condition Ready is not false (it may be nil), and
-- for the port of the slice's first port that is named metrics and has a number, or the service's
-- metrics port if there is none.
pub Mem-build_targets_iff :
    (slice : EndpointSlice) (metrics_port : ℕ) (scheme t : String)
    → Memᴰ t (build_targets_from_endpoint_slice slice metrics_port scheme) ↔ (
        (port : ℕ) × (e : Endpoint) × (address : String) × IsSlicePort metrics_port slice.ports port
        × Memᴰ e slice.endpoints
        × (e.ready ≢ some false)
        × Memᴰ address e.addresses
        × (t ≡ scheme <> "://" <> address <> ":" <> itoa port <> "/metrics"))
unfolding build_targets_from_endpoint_slice
Mem-build_targets_iff slice metrics_port scheme t =
    let n = slice_port metrics_port slice.ports in
    (
      λ mem.
          let (e, address, listed, ready, at, written) =
            IsTarget-endpoint_targets scheme n slice.endpoints t mem in
          (
            n,
            e,
            address,
            slice_port-IsSlicePort metrics_port slice.ports,
            listed,
            (is_ready_iff e).0 ready,
            at,
            written,
          ),
      λ (port, e, address, is_port, listed, ready, at, written).
          Mem-endpoint_targets scheme n slice.endpoints t (
            e,
            address,
            listed,
            (is_ready_iff e).1 ready,
            at,
            written
                ∙ ap (λ m. target scheme m address)
                    (IsSlicePort-slice_port metrics_port slice.ports port is_port),
          ),
    )
