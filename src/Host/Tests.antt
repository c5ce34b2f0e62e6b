-- ===== src/Host/Tests.antt =====
-- src/host.rs: an agent with its hooks, another agent on the same pane, and the check of both.
use wezterm_attention.Prelude.{
  ℕ, ◌≡◌, ◌≢◌, ◌↔◌, refl, arith, true, false, Option, none, some, unwrap_or,
}
use wezterm_attention.Prelude.Json.{Value}
use wezterm_attention.Protocol.{◌>>=◌, Result, ok, Limits, Manifest}
use wezterm_attention.Wezterm.{
  ℤ, pos, ControllingTerminal, ProcessStart, ProcessFacts, ProcessRead, ProcessInspector,
}
use wezterm_attention.Owner.{
  ClaimOwner, OwnerRead, HostProof, OwnerState, claim_owner, write_into, owner_state,
  recorded_terminal,
}
use wezterm_attention.Host.{BindingRef, is_contested, host_record, host_members, recorded_host}
use wezterm_attention.Owner.RoundTrip.{IsProcess, claim_owner-write_into}
use wezterm_attention.Protocol.Decimal.{parse_decimal, to_decimal}
use wezterm_attention.Protocol.Stamp.{fixed_digits, digit_count, digits_value}
use wezterm_attention.Host.Record.{Agrees, recorded_host-kept}
use wezterm_attention.Host.Again.{recorded_host_again}
use wezterm_attention.Host.Check.{
  HostCheckPorts, HostAvailability, vouched, check_host, confirm_recorded, ◌then◌,
}
use wezterm_attention.Host.Check.Available.{Vouches, check_host-available_iff}

abbrev limits : Limits
limits = record {
  pane_id_max_digits = 20;
  safe_label_max_bytes = 256;
  path_max_bytes = 4096;
  max_json_bytes = 65536;
  lifecycle_max_json_bytes = 262144;
  lifecycle_pool_max_count = 64;
  lifecycle_pool_max_bytes = 122880;
  lifecycle_envelope_max_bytes = 16384;
  lifecycle_observation_max_bytes = 18432;
  lifecycle_native_observation_max_bytes = 2048;
}

abbrev carried : Result Manifest
carried = ok record {
  record_schema = 2;
  limits = limits;
  tool_classification = λ provider. none;
  lifecycle_sources = λ provider. none;
  turn_end_sources = λ provider. none;
}

abbrev started : ℕ → ProcessStart
started at = record { seconds = at; microseconds = 5 }

abbrev agent : ℕ → ClaimOwner
agent pid = record { pid = pos pid; start = started pid; boot_session_id = "boot" }

abbrev proof_of : ℕ → HostProof
proof_of pid = record {
  owner = agent pid;
  tty_path = "/dev/ttys001";
  tty_fingerprint = "print";
  terminal = 7;
  foreground = true;
}

abbrev pid_number : ℤ → ℕ
pid_number (pos pid) = pid
pid_number (ℤ.negsuc n) = 0

abbrev facts_of : ℤ → ProcessFacts
facts_of pid = record {
  parent_pid = pos 1;
  process_group = pid;
  terminal = ControllingTerminal.device 7;
  terminal_foreground_group = pid;
  uid = 501;
  start = started (pid_number pid);
  traced = false;
  zombie = false;
}

-- Every process runs.
abbrev running : ProcessInspector
running = record {
  self_claim_supported = true;
  own_pid = pos 900;
  process = λ pid. ProcessRead.found (facts_of pid);
  boot_session = some "boot";
  terminal_device = λ path. some 7;
}

abbrev binding : BindingRef
binding = record {
  address = record { realm_id = "r"; incarnation_id = "i"; pane_id = "3" };
  launch_id = "launch";
  binding_id = "binding";
}

abbrev written_by : ℕ → Value
written_by pid =
    write_into (agent pid)
      (Value.object (host_members (proof_of pid) binding "session-start" "100" 2))

abbrev ports : HostCheckPorts
ports = record { processes = running; tty = record { fingerprint = λ path. ok "print" } }

not_gone : owner_state (agent 42) running ≢ OwnerState.gone
unfolding owner_state
not_gone = cc

agent-IsProcess : IsProcess (agent 42)
agent-IsProcess = ((42, refl, omega arith, omega arith), omega arith, omega arith)

later_agent-IsProcess : IsProcess (agent 50)
later_agent-IsProcess = ((50, refl, omega arith, omega arith), omega arith, omega arith)

written_by-named : claim_owner (written_by 42) ≡ OwnerRead.named (agent 42)
written_by-named =
    claim_owner-write_into (agent 42) (host_members (proof_of 42) binding "session-start" "100" 2)
      agent-IsProcess

written_by-host_record :
    host_record carried (proof_of 42) binding "session-start" "100" ≡ ok (written_by 42)
unfolding host_record ◌>>=◌
written_by-host_record = refl

recorded_host-kept_example :
    (r : Option Value) × (recorded_host carried
        (proof_of 50)
        binding
        "stop"
        "300"
        (some (written_by 42))
        running
      ≡ ok r)
    × Agrees (unwrap_or r (written_by 42)) (written_by 42)
    × (is_contested (unwrap_or r (written_by 42)) ≡ true)
recorded_host-kept_example =
    recorded_host-kept carried (proof_of 50) binding "stop" "300" (written_by 42) (agent 42) running
      written_by-named refl not_gone

first_record :
    recorded_host carried (proof_of 42) binding "session-start" "100" none running
    ≡ ok (some (written_by 42))
unfolding recorded_host host_record ◌>>=◌
first_record = refl

recorded_host_again_example :
    recorded_host carried (proof_of 42) binding "stop" "300" (some (written_by 42)) running
    ≡ ok none
recorded_host_again_example =
    recorded_host_again carried (proof_of 42) binding "session-start" "stop" "100" "300" running
      none (written_by 42) agent-IsProcess first_record

check_host-available_iff_example :
    ((check_host (vouched (written_by 42)) false (some ports) none).availability
      ≡ HostAvailability.available)
    ↔ Vouches (vouched (written_by 42)) false (some ports)
check_host-available_iff_example =
    check_host-available_iff (vouched (written_by 42)) false (some ports) none

-- The facet is available for the agent that the record names.
facet_available :
    (check_host (vouched (written_by 42)) false (some ports) none).availability
    ≡ HostAvailability.available
unfolding ◌>>=◌ check_host confirm_recorded ◌then◌ claim_owner write_into recorded_terminal
    is_contested parse_decimal to_decimal fixed_digits digit_count digits_value
facet_available = refl
