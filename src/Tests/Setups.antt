-- ===== src/Tests/Setups.antt =====
-- The results on the set-up at concrete inputs.
use tao_p4code.Base.{pos, ◌≡◌, refl, false, some, none, arith}
use tao_p4code.World.{Returns, ◌>>=◌}
use tao_p4code.Route.Rib.{no_extra, IsRib, view}
use tao_p4code.Route.Rib.History.{History, run_ops}
use tao_p4code.Setup.{Setup, zero_fib_res, dp_tables_init}
use tao_p4code.Setup.Fresh.{Enough}
use tao_p4code.Setup.Ready.{
  no_routes, IsBoot, IsFresh, dp_tables_init-IsFresh, dp_tables_init-History,
}
use tao_p4code.Pmd.{PmdCtx, zero_pmd_ctx, Threads, pts_init, ntb_pmd_ctx_create}
use tao_p4code.Pmd.Contexts.{IsRegistered, Created, ntb_pmd_ctx_create-IsRegistered}
use tao_p4code.Base.{ℕ, zero, suc, Option, true}
use tao_p4code.Demo.{none_ne_some, demo_env, start, first_free}
use tao_p4code.Tests.Ribs.{ops}
use mathlib.Core.Option.{some-injective}
use mathlib.Core.Path.{ap, sym}

-- Tables that are functions, and an array none of whose elements is in use.
abbrev demo_setup : Setup demo_env
demo_setup = record {
  fbarray = some (λ i. false);
  elements = λ i. zero_fib_res;
  rib = some (λ k. none);
  nhop = some (λ k. none);
  neigh = some (λ k. none);
  tunnel = some (λ k. none);
  fib = λ i id. some (λ p l. none);
  fbarray-used = λ a i e. ap (λ f. f i) (sym (some-injective _ a e));
  elements_zero = λ i. refl;
  rib-lookup = λ t k e. ap (λ f. f k) (sym (some-injective _ t e));
  nhop-lookup = λ t k e. ap (λ f. f k) (sym (some-injective _ t e));
  neigh-lookup = λ t k e. ap (λ f. f k) (sym (some-injective _ t e));
  tunnel-lookup = λ t k e. ap (λ f. f k) (sym (some-injective _ t e));
}

demo-Enough : Enough demo_setup
unfolding first_free
demo-Enough = record {
  arr = λ i. false;
  bh = 0;
  rib = λ k. none;
  nhop = λ k. none;
  neigh = λ k. none;
  tunnel = λ k. none;
  fbarray = refl;
  free = refl;
  has_rib = refl;
  has_nhop = refl;
  has_neigh = refl;
  has_tunnel = refl;
  has_fib = λ i id. (_, refl);
}

start-IsBoot : IsBoot start
start-IsBoot = record { vrf_n = refl; valid = λ j. refl; neighs = λ p. refl }

dp_tables_init-IsFresh_example :
    Returns (λ ret x. (ret ≡ pos 0) × IsFresh x) (dp_tables_init demo_setup start)
dp_tables_init-IsFresh_example = dp_tables_init-IsFresh demo_setup demo-Enough start start-IsBoot

dp_tables_init-History_example :
    Returns
      (λ rets x. IsRib 5 no_extra x × History ops no_routes rets (view x))
      ((dp_tables_init demo_setup >>= λ _. run_ops ops) start)
dp_tables_init-History_example =
    dp_tables_init-History demo_setup demo-Enough start start-IsBoot ops (omega arith) (omega arith)

-- The master's context is registered.
abbrev one_ctx : ℕ → Option PmdCtx
one_ctx zero = some zero_pmd_ctx
one_ctx (suc i) = none

one_ctx-IsRegistered : IsRegistered one_ctx
one_ctx-IsRegistered zero x e = ap (λ y. y.pid) (sym (some-injective _ x e))
one_ctx-IsRegistered (suc i) x e = absurd (none_ne_some e)

abbrev one_thread : Threads
one_thread = record { ctxs = one_ctx; stat = pts_init }

ntb_pmd_ctx_create-IsRegistered_example :
    let r = ntb_pmd_ctx_create true one_thread in
    IsRegistered r.1.ctxs × Created true one_thread r.0 r.1
ntb_pmd_ctx_create-IsRegistered_example =
    ntb_pmd_ctx_create-IsRegistered true one_thread one_ctx-IsRegistered
