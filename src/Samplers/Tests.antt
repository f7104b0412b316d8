-- ===== src/Samplers/Tests.antt =====
-- src/samplers.cpp and src/descriptors.cpp: the theorems on samplers at concrete input.
use compat_layer.Prelude.{◌≡◌, refl, [], ◌∷◌, List, map, none, some, arith}
use compat_layer.Driver.{Driver}
use compat_layer.Driver.Objects.{opened}
use compat_layer.Driver.Sample.{numbering, numbering-MakesNewObjects, succeeds, sample_device}
use compat_layer.Samplers.{
  Samplers, Binding, conversion_info, create_sampler, destroy_sampler, get_ycbcr_fallback_sampler,
  patched_so_far, patch_at, patch_loop, patch_ycbcr_sampler_bindings,
}
use compat_layer.Samplers.Owned.{
  IsOwned, Request, creates, destroys, ends, serve, serve_all, AllValid, serve_all-IsOwned,
}
use compat_layer.Samplers.Patched.{
  patch_binding, AllPairs, IsPatched, patch_ycbcr_sampler_bindings-patched,
  patch_ycbcr_sampler_bindings-AllPatched,
}

abbrev driver : Driver
driver = numbering succeeds

abbrev start : Samplers
start = record { ycbcr_samplers = []; fallback_sampler = 0; history = [] }

start-IsOwned : IsOwned driver start
unfolding opened
start-IsOwned = record {
  ycbcr = λ p. omega arith;
  fallback = λ n. absurd (n refl);
  apart = refl;
  no_null = refl;
}

-- Samplers 1 and 3 are the application's, of which 1 has a conversion, and 2 is the fallback.
abbrev requests : List Request
requests =
    creates (some sample_device) (7 ∷ []) (5 ∷ conversion_info ∷ [])
    ∷ creates (some sample_device) (8 ∷ []) []
    ∷ destroys (some sample_device) 1
    ∷ ends
    ∷ []

requests-AllValid : AllValid driver requests start
unfolding AllValid serve create_sampler get_ycbcr_fallback_sampler destroy_sampler
requests-AllValid = (tt, (tt, ((omega arith), (tt, tt))))

serve_all-IsOwned_example : IsOwned driver (serve_all driver requests start)
serve_all-IsOwned_example =
    serve_all-IsOwned driver requests start (numbering-MakesNewObjects succeeds) requests-AllValid
      start-IsOwned

abbrev warm : Samplers
warm = record { ycbcr_samplers = 1 ∷ []; fallback_sampler = 2; history = [] }

abbrev bindings : List Binding
bindings =
    record { binding = 0; stage_flags = 16; immutable_samplers = some (1 ∷ []) }
    ∷ record { binding = 1; stage_flags = 48; immutable_samplers = some (3 ∷ 1 ∷ []) }
    ∷ record { binding = 2; stage_flags = 32; immutable_samplers = none }
    ∷ []

patch_ycbcr_sampler_bindings-bindings :
    patch_ycbcr_sampler_bindings warm bindings
    ≡ record { binding = 0; stage_flags = 16; immutable_samplers = some (1 ∷ []) }
      ∷ record { binding = 1; stage_flags = 48; immutable_samplers = some (3 ∷ 2 ∷ []) }
      ∷ record { binding = 2; stage_flags = 32; immutable_samplers = none }
      ∷ []
unfolding patch_ycbcr_sampler_bindings patch_loop patch_at patched_so_far
patch_ycbcr_sampler_bindings-bindings = refl

patch_ycbcr_sampler_bindings-patched_example :
    patch_ycbcr_sampler_bindings warm bindings ≡ map (patch_binding (1 ∷ []) 2) bindings
patch_ycbcr_sampler_bindings-patched_example =
    patch_ycbcr_sampler_bindings-patched warm bindings (omega arith)

patch_ycbcr_sampler_bindings-AllPatched_example :
    AllPairs (IsPatched (1 ∷ []) 2) bindings (patch_ycbcr_sampler_bindings warm bindings)
patch_ycbcr_sampler_bindings-AllPatched_example =
    patch_ycbcr_sampler_bindings-AllPatched warm bindings (omega arith) refl
