-- ===== src/Status/AckExamples.antt =====
-- A worker that acknowledges the second of the two packets that it has.
use server_unit.Base.{
  ℕ, ◌≡◌, refl, true, false, none, some, [], ◌∷◌, ◌==◌, if◌then◌else◌, arith, contains, Returns,
  inl,
}
use server_unit.Base.Int.{pos}
use server_unit.Task.{data_sent}
use server_unit.Json.Concrete.{Value, empty, values}
use server_unit.Worker.{Worker, new_packet}
use server_unit.Registry.{get_worker_from_uid, find_uid, find_worker}
use server_unit.Templates.{has_name, new_templates}
use server_unit.Sender.Examples.{server, ready}
use server_unit.State.{Server}
use server_unit.Status.{ProcessStatusPacket, packet_status_parse}
use server_unit.Status.Examples.{packet}
use server_unit.Status.Acknowledged.{packet_status_parse-acknowledges}

abbrev busy : Worker ℕ
busy = record (ready 10) { ack_pending_queue = 60 ∷ 61 ∷ [] }

-- The packet at 60 is for the data at 41, that at 61 for the data "u" at 40.
abbrev sent : Server Value ℕ
sent = record server {
  packets = λ p.
      if p == 60
      then some (new_packet empty 41 true)
      else if p == 61
      then some (new_packet empty 40 true)
      else none;
  outgoing = record {
    out_data_registry_list = 41 ∷ 40 ∷ [];
    states = λ p.
        if p == 40
        then some (record { id = "u"; task_status = data_sent; worker = 3 })
        else if p == 41
        then some (record { id = "v"; task_status = data_sent; worker = 3 })
        else none;
  };
  registry = record server.registry {
    current_worker_list = record { address = 3; worker = busy } ∷ [];
  };
  timeout = record {
    timedout_worker_registry = [];
    timed_packets = 60 ∷ 61 ∷ [];
    timeout_list_lock = 1;
  };
}

abbrev acknowledgement : ProcessStatusPacket ℕ
acknowledgement = record packet { packet_code = pos 4 }

packet_status_parse-acknowledges_example :
    Returns
      (λ s'.
        (find_worker 3 s'.registry.current_worker_list
          ≡ some (record busy { ack_pending_queue = 60 ∷ [] }))
        × (s'.packets 61 ≡ none)
        × (s'.packets 60 ≡ sent.packets 60)
        × (contains 61 s'.timeout.timed_packets ≡ false)
        × (s'.outgoing ≡ sent.outgoing)
        × (s'.templates ≡ sent.templates)
        × (s'.instances ≡ sent.instances))
      (packet_status_parse values (λ text. some (pos 1)) acknowledgement sent)
unfolding find_worker get_worker_from_uid find_uid has_name new_templates
packet_status_parse-acknowledges_example =
    packet_status_parse-acknowledges values (λ text. some (pos 1)) 4 3 61 60 (60 ∷ []) []
      acknowledgement busy sent refl (inl refl) refl refl refl refl refl refl refl
      (
        (
          new_packet empty 41 true,
          record { id = "v"; task_status = data_sent; worker = 3 },
          refl,
          refl,
          refl,
          (omega arith),
        ),
        tt,
      )
      (
        new_packet empty 40 true,
        record { id = "u"; task_status = data_sent; worker = 3 },
        refl,
        refl,
        refl,
        (omega arith),
      )
      refl (omega arith)
