-- ===== src/App/Signals.antt =====
-- src/app_rpi_tcp_listener/rpi_tcp_listener.cpp: the flags of the process, its signals and its
-- arguments. The texts on the screen are left out.
use rpi_tcp_listener.Base.{
  ℕ, Bool, true, false, Option, none, some, List, [], ◌∷◌, ◌==◌, if◌then◌else◌,
}

-- `stop_proccess_g` and `reboot_system_g`.
pub record Process : Type 0 where
  pub stop_process : Bool
  pub reboot_system : Bool

pub data Signal : Type 0 where
  sigint sigterm other_signal : Signal

-- `SignalInterruptHandler`.
unfoldable pub signal_interrupt_handler : Signal → Process → Process
signal_interrupt_handler sigint g = record g { stop_process = true }
signal_interrupt_handler sigterm g = record g { stop_process = true }
signal_interrupt_handler other_signal g = g

unfoldable pub interrupted : List Signal → Process → Process
unfolding signal_interrupt_handler
interrupted [] g = g
interrupted (s ∷ signals) g = interrupted signals (signal_interrupt_handler s g)

-- `RebootSystem`.
unfoldable pub request_reboot : Process → Process
request_reboot g = record { stop_process = true; reboot_system = true }

pub record Args : Type 0 where
  pub log_to_file : Bool
  pub log_verbose : Bool

-- The `switch` of `ParseArgs`; `none` is `exit(0)`.
abbrev with_option : ℕ → Args → Option Args
with_option option a =
    if option == b'v'
    then some (record a { log_verbose = true })
    else if option == b'l'
    then some (record a { log_to_file = true })
    else none

-- `ParseArgs`, on the options that `getopt` gives one by one.
unfoldable pub parse_args : List ℕ → Args → Option Args
parse_args [] a = some a
parse_args (option ∷ options) a = elim (with_option option a) [
  | none ↦ none
  | some b ↦ parse_args options b
]

abbrev pub started : Process
started = record { stop_process = false; reboot_system = false }
