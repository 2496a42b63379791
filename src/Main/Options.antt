-- ===== src/Main/Options.antt =====
-- What the options of the command line come to.
use tao_p4code.Base.{
  ℕ, ℤ, ◌≡◌, refl, ap, ◌∙◌, Bool, true, false, ◌||◌, ◌&&◌, inl, inr, Option, none, some, List, [],
  ◌∷◌, arith, if◌then◌else◌, is_zero, ◌==◌, Option-cases,
}
use tao_p4code.Main.{
  Answers, Shell, ucli, bf_shell, nothing, switchd_fields, bf_switchd_init, run_cli_or_cleanup,
  exit_failure, main, Opt, sde_install_dir, p4_conf, bf_tmr_cpu, bfshell, kernel_pkt, help,
  question, other, CliMode, no_interactive_cli, interactive_ucli, interactive_bfshell, Globals,
  init_globals, Outcome, returns, exits, option_loop, required, parse_options,
}

-- The last argument of each option with an argument, or the value before.
abbrev pub last_dir : List Opt → Option (List ℕ) → Option (List ℕ)
last_dir [] d = d
last_dir (sde_install_dir arg ∷ opts) d = last_dir opts (some arg)
last_dir (o ∷ opts) d = last_dir opts d

abbrev pub last_conf : List Opt → Option (List ℕ) → Option (List ℕ)
last_conf [] d = d
last_conf (p4_conf arg ∷ opts) d = last_conf opts (some arg)
last_conf (o ∷ opts) d = last_conf opts d

abbrev pub last_core : (List ℕ → ℤ) → List Opt → ℤ → ℤ
last_core atoi [] c = c
last_core atoi (bf_tmr_cpu arg ∷ opts) c = last_core atoi opts (atoi arg)
last_core atoi (o ∷ opts) c = last_core atoi opts c

-- Whether an option without an argument is there.
abbrev pub has_bfshell : List Opt → Bool
has_bfshell [] = false
has_bfshell (bfshell ∷ opts) = true
has_bfshell (o ∷ opts) = has_bfshell opts

abbrev pub has_kernel_pkt : List Opt → Bool
has_kernel_pkt [] = false
has_kernel_pkt (kernel_pkt ∷ opts) = true
has_kernel_pkt (o ∷ opts) = has_kernel_pkt opts

-- The status of the first option that ends the process.
abbrev pub first_exit : List Opt → Option ℕ
first_exit [] = none
first_exit (help ∷ opts) = some 0
first_exit (question ∷ opts) = some 1
first_exit (other ∷ opts) = some 0
first_exit (o ∷ opts) = first_exit opts

-- The variables as the whole list of options sets them, from `g`.
abbrev pub settings : (List ℕ → ℤ) → List Opt → Globals → Globals
settings atoi opts g = record g {
  install_dir = last_dir opts g.install_dir;
  conf_file = last_conf opts g.conf_file;
  kernel_pkt = has_kernel_pkt opts || g.kernel_pkt;
  cli_mode = if has_bfshell opts then interactive_bfshell else g.cli_mode;
  bf_tmr_thr_core = last_core atoi opts g.bf_tmr_thr_core;
}

abbrev pub loop_outcome : Option ℕ → Globals → Outcome Globals
loop_outcome none g = returns g
loop_outcome (some status) g = exits status

or_true : (b : Bool) → (b || true) ≡ true
or_true true = refl
or_true false = refl

if_same : {A : Type 0} (b : Bool) (x : A) → (if b then x else x) ≡ x
if_same true x = refl
if_same false x = refl

option_loop-settings :
    (atoi : List ℕ → ℤ) (opts : List Opt) (g : Globals)
    → option_loop atoi opts g ≡ loop_outcome (first_exit opts) (settings atoi opts g)
unfolding option_loop
option_loop-settings atoi [] g = refl
option_loop-settings atoi (sde_install_dir arg ∷ opts) g = option_loop-settings atoi opts _
option_loop-settings atoi (p4_conf arg ∷ opts) g = option_loop-settings atoi opts _
option_loop-settings atoi (bf_tmr_cpu arg ∷ opts) g = option_loop-settings atoi opts _
option_loop-settings atoi (bfshell ∷ opts) g =
    option_loop-settings atoi opts _
    ∙ ap
        (λ (c : CliMode).
          loop_outcome (first_exit opts) (record (settings atoi opts g) { cli_mode = c }))
        (if_same (has_bfshell opts) interactive_bfshell)
option_loop-settings atoi (kernel_pkt ∷ opts) g =
    option_loop-settings atoi opts _
    ∙ ap
        (λ (b : Bool).
          loop_outcome (first_exit opts) (record (settings atoi opts g) { kernel_pkt = b }))
        (or_true (has_kernel_pkt opts))
option_loop-settings atoi (help ∷ opts) g = refl
option_loop-settings atoi (question ∷ opts) g = refl
option_loop-settings atoi (other ∷ opts) g = refl

-- The settings are used where both required arguments are given.
abbrev pub accept : Option (List ℕ) → Option (List ℕ) → Globals → Outcome Globals
accept (some dir) (some conf) g = returns g
accept _ _ g = exits 0

abbrev pub parsed : Option ℕ → Globals → Outcome Globals
parsed none g = accept g.install_dir g.conf_file g
parsed (some status) g = exits status

required-accept : (g : Globals) → required g ≡ accept g.install_dir g.conf_file g
required-accept g = go g.install_dir g.conf_file
  where
    go :
        (dir conf : Option (List ℕ))
        → (elim dir as (λ _. Outcome Globals) [
          | none ↦ exits 0
          | some d ↦ elim conf as (λ _. Outcome Globals) [ none ↦ exits 0 | some c ↦ returns g ]
        ])
          ≡ accept dir conf g
    go (some dir) (some conf) = refl
    go (some dir) none = refl
    go none conf = refl

pub parse_options-parsed :
    (atoi : List ℕ → ℤ) (opts : List Opt) (g : Globals)
    → parse_options atoi opts g ≡ parsed (first_exit opts) (settings atoi opts g)
unfolding parse_options
parse_options-parsed atoi opts g = elim (Option-cases (first_exit opts)) [
  | inl e ↦ rw (option_loop-settings atoi opts g, parse_options) (rw e (required-accept _))
  | inr (status, e) ↦ rw (option_loop-settings atoi opts g, parse_options) (rw e refl)
]

-- What main comes to, by what it is given.
abbrev pub started : Answers → Globals → Outcome (Globals × Shell)
started a g =
    if (a.euid == 0) && is_zero (a.lib_init (switchd_fields g)) && is_zero a.pipe
    then returns (
      switchd_fields g,
      elim g.cli_mode [
        | no_interactive_cli ↦ nothing
        | interactive_ucli ↦ ucli
        | interactive_bfshell ↦ bf_shell
      ],
    )
    else exits 1

abbrev pub main_outcome : Answers → Outcome Globals → Outcome (Globals × Shell)
main_outcome a (returns g) = started a g
main_outcome a (exits status) = exits status

main_started :
    (a : Answers) (g : Globals)
    → (elim (bf_switchd_init a g) as (λ _. Outcome (Globals × Shell)) [
      | exits status ↦ exits status
      | returns g' ↦
          if is_zero a.pipe then returns (g', run_cli_or_cleanup g') else exits exit_failure
    ])
      ≡ started a g
unfolding bf_switchd_init
main_started a g = ground arith

main_switched :
    (a : Answers) (o : Outcome Globals)
    → (elim o as (λ _. Outcome (Globals × Shell)) [
      | exits status ↦ exits status
      | returns g ↦ elim (bf_switchd_init a g) as (λ _. Outcome (Globals × Shell)) [
        | exits status ↦ exits status
        | returns g' ↦
            if is_zero a.pipe then returns (g', run_cli_or_cleanup g') else exits exit_failure
      ]
    ])
      ≡ main_outcome a o
main_switched a (returns g) = main_started a g
main_switched a (exits status) = refl

-- The options are taken in their order. The first one that is unknown, wrong or asks for help
-- ends the process, with status 1 if getopt_long found it wrong and 0 otherwise. If there is
-- none, the last --sde_install-dir, --p4-conf and --bf-tmr-cpu count, and --bfshell and
-- --kernel-pkt wherever they stand; the process ends with status 0 if the directory or the file
-- is missing, and with status 1 if the user is not root or the driver or the pipe fails.
-- Otherwise main gets to the end, through a shell exactly if --bfshell is given.
pub main-parsed :
    (atoi : List ℕ → ℤ) (a : Answers) (opts : List Opt)
    → main atoi a opts ≡ main_outcome a (parsed (first_exit opts) (settings atoi opts init_globals))
unfolding main
main-parsed atoi a opts = rw (parse_options-parsed atoi opts init_globals, main) (main_switched a _)
