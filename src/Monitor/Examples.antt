-- ===== src/Monitor/Examples.antt =====
-- Monitors without a database.
use server_unit.Base.{◌≡◌, refl, false, none, [], fault}
use server_unit.Base.Int.{pos}
use server_unit.Config.{default_config}
use server_unit.Sql.Concrete.{statements}
use server_unit.Json.Concrete.{nothing}
use server_unit.Sink.{new_sink, is_sink_full}
use server_unit.Sender.Examples.{server}
use server_unit.Monitor.Threads.{monitor_user_table_thread, monitor_instance_table_thread}
use server_unit.Monitor.Stops.{monitor_threads-fault}

monitor_threads-fault_example :
    (monitor_instance_table_thread
        (statements false)
        default_config
        (λ f. none)
        (pos 7)
        (λ k. false)
        (λ k w. w)
        (λ t. nothing)
        1
        []
        server
      ≡ fault)
    × (monitor_user_table_thread
          (statements false)
          default_config
          (λ f. none)
          (pos 7)
          (λ k. false)
          (λ k w. w)
          1
          []
          server
        ≡ fault)
unfolding new_sink is_sink_full
monitor_threads-fault_example =
    monitor_threads-fault (statements false) default_config (λ f. none) (pos 7) (λ k. false)
      (λ k w. w) (λ t. nothing) 0 [] server refl refl refl
