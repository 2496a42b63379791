-- ===== src/Main.antt =====
-- agent/main.c: the options of the command line, the set-up of the switch, and the run.
pub mod Options
use tao_p4code.Base.{
  ℕ, ℤ, pos, Bool, true, false, Option, none, some, List, [], ◌∷◌, ◌==◌, if◌then◌else◌, is_zero,
}

-- What a call of getopt_long returns, with `optarg` where the option has an argument: -1 ends the
-- list of them.
pub data Opt : Type 0 where
  sde_install_dir p4_conf bf_tmr_cpu : List ℕ → Opt
  bfshell kernel_pkt help question other : Opt

pub data CliMode : Type 0 where
  no_interactive_cli interactive_ucli interactive_bfshell : CliMode

-- The fields of `switchd_ctx` that the code writes, `requested_cli_mode` and `bf_tmr_thr_core`.
pub record Globals : Type 0 where
  pub install_dir : Option (List ℕ)
  pub conf_file : Option (List ℕ)
  pub kernel_pkt : Bool
  pub running_in_background : Bool
  pub dev_sts_thread : Bool
  pub dev_sts_port : ℕ
  pub cli_mode : CliMode
  pub bf_tmr_thr_core : ℤ

abbrev pub init_globals : Globals
init_globals = record {
  install_dir = none;
  conf_file = none;
  kernel_pkt = false;
  running_in_background = false;
  dev_sts_thread = false;
  dev_sts_port = 0;
  cli_mode = no_interactive_cli;
  bf_tmr_thr_core = pos 2;
}

-- A function returns, or the process exits with a status.
pub data Outcome (A : Type 0) : Type 0 where
  returns : A → Outcome A
  exits : ℕ → Outcome A

-- `EXIT_FAILURE`.
abbrev pub exit_failure : ℕ
exit_failure = 1

module _ (atoi : List ℕ → ℤ) where
  -- One round of the loop of parse_options.
  abbrev pub option_round : Opt → Globals → Outcome Globals
  option_round (sde_install_dir arg) g = returns (record g { install_dir = some arg })
  option_round (p4_conf arg) g = returns (record g { conf_file = some arg })
  option_round (bf_tmr_cpu arg) g = returns (record g { bf_tmr_thr_core = atoi arg })
  option_round bfshell g = returns (record g { cli_mode = interactive_bfshell })
  option_round kernel_pkt g = returns (record g { kernel_pkt = true })
  option_round help g = exits 0
  option_round question g = exits 1
  option_round other g = exits 0

  pub option_loop : List Opt → Globals → Outcome Globals
  option_loop [] g = returns g
  option_loop (o ∷ opts) g = elim (option_round o g) [
    | exits status ↦ exits status
    | returns g' ↦ option_loop opts g'
  ]

-- The tests behind the loop.
abbrev pub required : Globals → Outcome Globals
required g = elim g.install_dir [
  | none ↦ exits 0
  | some dir ↦ elim g.conf_file [ none ↦ exits 0 | some file ↦ returns g ]
]

pub parse_options : (List ℕ → ℤ) → List Opt → Globals → Outcome Globals
unfolding option_loop
parse_options atoi opts g = elim (option_loop atoi opts g) [
  | exits status ↦ exits status
  | returns g' ↦ required g'
]

-- What the system and the driver answer: geteuid, bf_switchd_lib_init, pipe, and
-- pthread_setaffinity_np.
pub record Answers : Type 0 where
  pub euid : ℕ
  pub lib_init : Globals → ℤ
  pub pipe : ℤ
  pub setaffinity : ℤ → ℤ

-- `is_sw_model` is true whatever the platform: its test is commented out.
abbrev pub bf_tmr_thr_cpu_affinity_set : Answers → Globals → Outcome Globals
bf_tmr_thr_cpu_affinity_set a g =
    let is_sw_model : Bool = true in
    if is_sw_model
    then returns g
    else if is_zero (a.setaffinity g.bf_tmr_thr_core)
    then returns g
    else exits exit_failure

-- The fields that bf_switchd_init sets before it calls the driver.
abbrev pub switchd_fields : Globals → Globals
switchd_fields g = record g {
  running_in_background = false;
  dev_sts_thread = true;
  dev_sts_port = 7777;
}

pub bf_switchd_init : Answers → Globals → Outcome Globals
bf_switchd_init a g =
    if a.euid == 0
    then (if is_zero (a.lib_init (switchd_fields g))
        then bf_tmr_thr_cpu_affinity_set a (switchd_fields g)
        else exits exit_failure)
    else exits exit_failure

-- What run_cli_or_cleanup does: it starts a shell and waits for the driver's threads, or it is done
-- at once.
pub data Shell : Type 0 where
  ucli bf_shell : Shell
  nothing : Shell

abbrev pub run_cli_or_cleanup : Globals → Shell
run_cli_or_cleanup g = elim g.cli_mode [
  | no_interactive_cli ↦ nothing
  | interactive_ucli ↦ ucli
  | interactive_bfshell ↦ bf_shell
]

-- main, up to the end of run_cli_or_cleanup; the packet thread is not started.
pub main : (List ℕ → ℤ) → Answers → List Opt → Outcome (Globals × Shell)
unfolding parse_options bf_switchd_init
main atoi a opts = elim (parse_options atoi opts init_globals) [
  | exits status ↦ exits status
  | returns g ↦ elim (bf_switchd_init a g) [
    | exits status ↦ exits status
    | returns g' ↦
        if is_zero a.pipe then returns (g', run_cli_or_cleanup g') else exits exit_failure
  ]
]
