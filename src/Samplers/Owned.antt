-- ===== src/Samplers/Owned.antt =====
-- src/samplers.cpp: the YCbCr samplers and the fallback sampler are open in the driver, and apart.
use compat_layer.Prelude.{
  ℕ, ◌≤◌, ◌≡◌, ◌≢◌, refl, sym, ap, ◌∙◌, true, List, [], ◌∷◌, ◌++◌, Option, none, some, count,
  count-remove, ltb, ◌==◌, if◌then◌else◌, Bool-cases, inl, inr, arith,
}
use compat_layer.Device.{Device}
use compat_layer.Driver.{Driver, Call, Object, is_success}
use compat_layer.Driver.Objects.{MakesNewObjects, opened, opened-le}
use compat_layer.Samplers.{
  Samplers, called, insert_sampler, has_conversion, get_ycbcr_fallback_sampler, create_sampler,
  destroy_sampler, destroy_ycbcr_fallback_sampler,
}

pub record IsOwned (d : Driver) (s : Samplers) : Type 0 where
  pub ycbcr : (p : ℕ) → count p s.ycbcr_samplers ≤ opened d Object.sampler p s.history
  pub fallback : s.fallback_sampler ≢ 0 → opened d Object.sampler s.fallback_sampler s.history ≡ 1
  pub apart : count s.fallback_sampler s.ycbcr_samplers ≡ 0
  pub no_null : count 0 s.ycbcr_samplers ≡ 0

count-insert :
    (p q : ℕ) (ps : List ℕ)
    → count q (insert_sampler p ps)
      ≡ (if p == q then (if ltb 0 (count p ps) then count p ps else 1) else count q ps)
count-insert p q ps = elim (Bool-cases (p == q)) [
  | inl e ↦ let same : p ≡ q = ground (arith, e) in ground (arith, ap (λ x. count x ps) same, e)
  | inr e ↦ ground (arith, e)
]

module _ (d : Driver) (new : MakesNewObjects d) where
  -- One more sampler is open.
  called-IsOwned :
      (args : List ℕ) (s : Samplers)
      → IsOwned d s
      → IsOwned d (called (Call.create Object.sampler args) s)
  unfolding opened
  called-IsOwned args s v = record {
    ycbcr = λ p. ground (arith, v.ycbcr p, opened-le d Object.sampler p s.history);
    fallback = λ n. ground (arith, v.fallback n);
    apart = v.apart;
    no_null = v.no_null;
  }

  get_ycbcr_fallback_sampler-IsOwned :
      (info : List ℕ) (s : Samplers)
      → IsOwned d s
      → IsOwned d (get_ycbcr_fallback_sampler d info s).1
  unfolding get_ycbcr_fallback_sampler opened
  get_ycbcr_fallback_sampler-IsOwned info s v =
      let c = Call.create Object.sampler info in
      elim (Bool-cases (s.fallback_sampler == 0)) [
        | inr k ↦ rw (k, get_ycbcr_fallback_sampler) v
        | inl k ↦ elim (Bool-cases (is_success (d.result s.history c))) [
          | inr e ↦ rw (k, e, get_ycbcr_fallback_sampler) (called-IsOwned info s v)
          | inl e ↦
              let fresh = new s.history Object.sampler info e in
              let after = called-IsOwned info s v in
              rw (k, e, get_ycbcr_fallback_sampler)
                (record {
                  ycbcr = after.ycbcr;
                  fallback = λ n. ground (arith, e);
                  apart = ground (arith, fresh.1, v.ycbcr (d.handle s.history c));
                  no_null = v.no_null;
                })
        ]
      ]

  -- A new sampler with a conversion is in the set from now on.
  added-IsOwned :
      (args : List ℕ) (s : Samplers)
      → is_success (d.result s.history (Call.create Object.sampler args)) ≡ true
      → IsOwned d s
      → let c = Call.create Object.sampler args in
        IsOwned d (record (called c s) {
          ycbcr_samplers = insert_sampler (d.handle s.history c) s.ycbcr_samplers;
        })
  unfolding opened
  added-IsOwned args s e v =
      let c = Call.create Object.sampler args in
      let handle = d.handle s.history c in
      let fresh = new s.history Object.sampler args e in
      let after = called-IsOwned args s v in
      record {
        ycbcr = λ p. ground (
          arith,
          count-insert handle p s.ycbcr_samplers,
          v.ycbcr handle,
          fresh.1,
          v.ycbcr p,
          opened-le d Object.sampler p s.history,
          e,
        );
        fallback = after.fallback;
        apart = elim (Bool-cases (handle == s.fallback_sampler)) [
          | inl k ↦
              let same : handle ≡ s.fallback_sampler = ground (arith, k) in
              let closed : opened d Object.sampler s.fallback_sampler s.history ≡ 0 =
                ap (λ x. opened d Object.sampler x s.history) (sym same) ∙ fresh.1 in
              ground (arith, same, fresh.0, v.fallback, closed)
          | inr k ↦
              ground (arith, k, count-insert handle s.fallback_sampler s.ycbcr_samplers, v.apart)
        ];
        no_null = ground (arith, count-insert handle 0 s.ycbcr_samplers, fresh.0, v.no_null);
      }

  create_sampler-IsOwned :
      (dev : Option Device) (info chain : List ℕ) (s : Samplers)
      → IsOwned d s
      → IsOwned d (create_sampler d dev info chain s).2
  unfolding create_sampler
  create_sampler-IsOwned none info chain s v = v
  create_sampler-IsOwned (some dev) info chain s v =
      let args = info ++ chain in
      elim (Bool-cases (is_success (d.result s.history (Call.create Object.sampler args)))) [
        | inr e ↦ rw (e, create_sampler) (called-IsOwned args s v)
        | inl e ↦ elim (Bool-cases (has_conversion chain)) [
          | inr q ↦ rw (e, q, create_sampler) (called-IsOwned args s v)
          | inl q ↦
              rw (e, q, create_sampler)
                (get_ycbcr_fallback_sampler-IsOwned info _ (added-IsOwned args s e v))
        ]
      ]

destroy_sampler-IsOwned :
    (d : Driver) (dev : Option Device) (handle : ℕ) (s : Samplers)
    → handle ≢ s.fallback_sampler
    → IsOwned d s
    → IsOwned d (destroy_sampler dev handle s)
unfolding destroy_sampler opened
destroy_sampler-IsOwned d none handle s n v = v
destroy_sampler-IsOwned d (some dev) handle s n v = record {
  ycbcr = λ p. ground (arith, count-remove p handle s.ycbcr_samplers, v.ycbcr p);
  fallback = λ m. ground (arith, n, v.fallback m);
  apart = ground (arith, count-remove s.fallback_sampler handle s.ycbcr_samplers, v.apart);
  no_null = ground (arith, count-remove 0 handle s.ycbcr_samplers, v.no_null);
}

destroy_ycbcr_fallback_sampler-IsOwned :
    (d : Driver) (s : Samplers) → IsOwned d s → IsOwned d (destroy_ycbcr_fallback_sampler s)
unfolding destroy_ycbcr_fallback_sampler opened
destroy_ycbcr_fallback_sampler-IsOwned d s v = elim (Bool-cases (s.fallback_sampler == 0)) [
  | inl k ↦ rw (k, destroy_ycbcr_fallback_sampler) v
  | inr k ↦
      rw (k, destroy_ycbcr_fallback_sampler)
        (record {
          ycbcr = λ p. elim (Bool-cases (s.fallback_sampler == p)) [
            | inl q ↦
                let same : s.fallback_sampler ≡ p = ground (arith, q) in
                let apart : count p s.ycbcr_samplers ≡ 0 =
                  ap (λ x. count x s.ycbcr_samplers) (sym same) ∙ v.apart in
                ground (arith, q, apart)
            | inr q ↦ ground (arith, q, v.ycbcr p)
          ];
          fallback = λ n. absurd (n refl);
          apart = v.no_null;
          no_null = v.no_null;
        })
]

-- A call of an entry point by the application, or the end of the device.
pub data Request : Type 0 where
  creates : Option Device → (info chain : List ℕ) → Request
  destroys : Option Device → (handle : ℕ) → Request
  ends : Request

module _ (d : Driver) where
  unfoldable pub serve : Request → Samplers → Samplers
  serve (creates dev info chain) s = (create_sampler d dev info chain s).2
  serve (destroys dev handle) s = destroy_sampler dev handle s
  serve ends s = destroy_ycbcr_fallback_sampler s

  unfoldable pub serve_all : List Request → Samplers → Samplers
  serve_all [] s = s
  serve_all (r ∷ rs) s = serve_all rs (serve r s)

  -- The application does not know the fallback sampler, so it does not destroy it.
  abbrev pub IsValid : Request → Samplers → Type 0
  IsValid (creates dev info chain) s = Unit
  IsValid (destroys dev handle) s = handle ≢ s.fallback_sampler
  IsValid ends s = Unit

  unfoldable pub AllValid : List Request → Samplers → Type 0
  AllValid [] s = Unit
  AllValid (r ∷ rs) s = IsValid r s × AllValid rs (serve r s)

-- Whatever samplers are created and destroyed, each sampler that is taken for a YCbCr sampler is
-- open in the driver, the fallback sampler is open, if there is one, and it is not taken for a
-- YCbCr sampler. The application destroys none but its own samplers, and new handles are new.
pub serve_all-IsOwned :
    (d : Driver) (rs : List Request) (s : Samplers)
    → MakesNewObjects d
    → AllValid d rs s
    → IsOwned d s
    → IsOwned d (serve_all d rs s)
unfolding serve_all serve AllValid
serve_all-IsOwned d [] s new ok v = v
serve_all-IsOwned d (creates dev info chain ∷ rs) s new ok v =
    serve_all-IsOwned d rs _ new ok.1 (create_sampler-IsOwned d new dev info chain s v)
serve_all-IsOwned d (destroys dev handle ∷ rs) s new ok v =
    serve_all-IsOwned d rs _ new ok.1 (destroy_sampler-IsOwned d dev handle s ok.0 v)
serve_all-IsOwned d (ends ∷ rs) s new ok v =
    serve_all-IsOwned d rs _ new ok.1 (destroy_ycbcr_fallback_sampler-IsOwned d s v)
