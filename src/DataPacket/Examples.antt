-- ===== src/DataPacket/Examples.antt =====
-- Data of an error that replaces a final result.
use server_unit.Base.{◌≡◌, refl, true, false, [], ◌∷◌, done}
use server_unit.Base.Int.{pos}
use server_unit.Config.{default_config}
use server_unit.Sql.Concrete.{statements}
use server_unit.Sender.Examples.{server}
use server_unit.Outgoing.{find_match_in_list, find_entry}
use server_unit.DataPacket.{ProcessDataPacket, error_data, execute_data_packet}
use server_unit.DataPacket.Results.{csv_of, update_of, execute_data_packet-stores}

abbrev packet : ProcessDataPacket
packet = record {
  data_type = error_data;
  table_id = "u";
  content = "1,2";
  worker_uid = "5";
  packet_staus_code = pos 32;
}

execute_data_packet-stores_example :
    execute_data_packet (statements true) default_config packet [] server
    ≡ done (
      update_of "1,2" "u" ∷ [],
      record server { files = (csv_of default_config false "u", "1,2") ∷ [] },
    )
unfolding find_match_in_list find_entry
execute_data_packet-stores_example =
    execute_data_packet-stores (statements true) default_config packet [] server true refl refl
