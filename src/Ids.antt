-- ===== src/Ids.antt =====
-- The names of elements and attributes in the XML files, include/IDs.h and the namespace
-- DSxmlparser of src/DiscoveryServerManager.cpp.
use discovery_server.Prelude.{String}

abbrev pub s_ds : String
s_ds = "DS"

abbrev pub s_servers : String
s_servers = "servers"

abbrev pub s_server : String
s_server = "server"

abbrev pub s_clients : String
s_clients = "clients"

abbrev pub s_client : String
s_client = "client"

abbrev pub s_simples : String
s_simples = "simples"

abbrev pub s_simple : String
s_simple = "simple"

abbrev pub s_persist : String
s_persist = "persist"

abbrev pub s_listening_ports : String
s_listening_ports = "ListeningPorts"

abbrev pub s_time : String
s_time = "time"

abbrev pub s_someone : String
s_someone = "someone"

abbrev pub s_show_liveliness : String
s_show_liveliness = "show_liveliness"

abbrev pub s_creation_time : String
s_creation_time = "creation_time"

abbrev pub s_removal_time : String
s_removal_time = "removal_time"

abbrev pub s_snapshot : String
s_snapshot = "snapshot"

abbrev pub s_snapshots : String
s_snapshots = "snapshots"

abbrev pub s_file : String
s_file = "file"

abbrev pub s_user_shutdown : String
s_user_shutdown = "user_shutdown"

abbrev pub s_prefix_validation : String
s_prefix_validation = "prefix_validation"

abbrev pub s_listening_port : String
s_listening_port = "listening_port"

abbrev pub s_environment : String
s_environment = "environment"

abbrev pub s_change : String
s_change = "change"

abbrev pub s_variable : String
s_variable = "variable"

abbrev pub s_key : String
s_key = "key"

abbrev pub s_value : String
s_value = "value"

abbrev pub s_ds_snapshots : String
s_ds_snapshots = "DS_Snapshots"

abbrev pub s_ds_snapshot : String
s_ds_snapshot = "DS_Snapshot"

abbrev pub s_timestamp : String
s_timestamp = "timestamp"

abbrev pub s_process_time : String
s_process_time = "process_time"

abbrev pub s_last_pdp_callback : String
s_last_pdp_callback = "last_pdp_callback_time"

abbrev pub s_last_edp_callback : String
s_last_edp_callback = "last_edp_callback_time"

abbrev pub s_description : String
s_description = "description"

abbrev pub s_pt_db : String
s_pt_db = "ptdb"

abbrev pub s_pt_di : String
s_pt_di = "ptdi"

abbrev pub s_publisher : String
s_publisher = "publisher"

abbrev pub s_subscriber : String
s_subscriber = "subscriber"

abbrev pub s_guid_prefix : String
s_guid_prefix = "guid_prefix"

abbrev pub s_guid_entity : String
s_guid_entity = "guid_entity"

abbrev pub s_alive : String
s_alive = "alive"

abbrev pub s_name : String
s_name = "name"

abbrev pub s_topic : String
s_topic = "topic"

abbrev pub s_type : String
s_type = "type"

abbrev pub s_alive_count : String
s_alive_count = "alive_count"

abbrev pub s_not_alive_count : String
s_not_alive_count = "not_alive_count"

abbrev pub s_discovered_timestamp : String
s_discovered_timestamp = "discovered_timestamp"
