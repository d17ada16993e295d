-- ===== src/Tests/System.antt =====
-- Runs on the files of the system.
use sdwan_agent.Prelude.{refl, none, some}
use sdwan_agent.Errors.{external}
use sdwan_agent.FirstPort.{PortFile, Faults, IsUndone, clear_static, setup_static, static-IsUndone}
use sdwan_agent.Grafana.{configure_agent, follows, untouched, IsCurrent, configure_agent-IsCurrent}
use sdwan_agent.Machine.{run}
use sdwan_agent.Machine.Views.{Holds}
use sdwan_agent.Tests.{plain, plain_laws, serving}

abbrev port_file : PortFile
port_file = record { content = "auto port1"; mode = 420 }

abbrev no_flush : Faults
no_flush = record {
  stat = none;
  read = none;
  write = none;
  flush = some (external "busy");
  torn = port_file;
}

static-IsUndone_example :
    IsUndone port_file (clear_static no_flush port_file)
    × IsUndone port_file (setup_static no_flush port_file)
static-IsUndone_example = static-IsUndone port_file no_flush refl

configure_agent-IsCurrent_example :
    Holds follows untouched IsCurrent (run plain (configure_agent "mimir" "loki") serving)
configure_agent-IsCurrent_example =
    configure_agent-IsCurrent plain plain_laws "mimir" "loki" serving refl
