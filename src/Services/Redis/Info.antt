-- ===== src/Services/Redis/Info.antt =====
-- honeytrap/services/redis/messages.go: the texts of the INFO command, and the forms of an answer.
use dynamic_labyrinth.Base.{ℕ, List, [], ◌∷◌, ◌++◌, Bool, true, false, ◌==◌, if◌then◌else◌, length}
use dynamic_labyrinth.Base.Text.{codes}

unfoldable pub info_clients : List ℕ
info_clients =
    codes "# Clients\nconnected_clients:1\nclient_longest_output_list:0\n"
    ++ (codes "client_biggest_input_buf:0\nblocked_clients:0\n\n")

unfoldable pub info_memory : List ℕ
info_memory =
    codes "# Memory\nused_memory:1828264\nused_memory_human:808.85K\n"
    ++ (codes "used_memory_rss:4120576\nused_memory_rss_human:3.93M\n"
        ++ (codes "used_memory_peak:828264\nused_memory_peak_human:808.85K\n"
            ++ (codes "used_memory_peak_perc:100.00%\nused_memory_overhead:815150\n"
                ++ (codes "used_memory_startup:765520\nused_memory_dataset:13114\n"
                    ++ (codes "used_memory_dataset_perc:20.90%\ntotal_system_memory:2096160768\n"
                        ++ (codes "total_system_memory_human:1.95G\nused_memory_lua:37888\n"
                            ++ (codes
                                  "used_memory_lua_human:37.00K\nmaxmemory:0\nmaxmemory_human:0B\n"
                                ++ (codes
                                      "maxmemory_policy:noeviction\nmem_fragmentation_ratio:4.97\n"
                                    ++ (codes
                                          "mem_allocator:jemalloc-4.0.3\nactive_defrag_running:0\n"
                                        ++ (codes "lazyfree_pending_objects:0\n\n"))))))))))

unfoldable pub info_persistence : List ℕ
info_persistence =
    codes "# Persistence\nloading:0\nrdb_changes_since_last_save:0\n"
    ++ (codes "rdb_bgsave_in_progress:0\nrdb_last_save_time:1515759614\n"
        ++ (codes "rdb_last_bgsave_status:ok\nrdb_last_bgsave_time_sec:-1\n"
            ++ (codes "rdb_current_bgsave_time_sec:-1\nrdb_last_cow_size:0\naof_enabled:0\n"
                ++ (codes "aof_rewrite_in_progress:0\naof_rewrite_scheduled:0\n"
                    ++ (codes "aof_last_rewrite_time_sec:-1\naof_current_rewrite_time_sec:-1\n"
                        ++ (codes "aof_last_bgrewrite_status:ok\naof_last_write_status:ok\n"
                            ++ (codes "aof_last_cow_size:0\n\n")))))))

unfoldable pub info_stats : List ℕ
info_stats =
    codes "total_connections_received:2\ntotal_commands_processed:1\n"
    ++ (codes "instantaneous_ops_per_sec:0\ntotal_net_input_bytes:14\n"
        ++ (codes "total_net_output_bytes:2664\ninstantaneous_input_kbps:0.00\n"
            ++ (codes "instantaneous_output_kbps:0.00\nrejected_connections:0\nsync_full:0\n"
                ++ (codes "sync_partial_ok:0\nsync_partial_err:0\nexpired_keys:0\n"
                    ++ (codes "evicted_keys:0\nkeyspace_hits:0\nkeyspace_misses:0\n"
                        ++ (codes "pubsub_channels:0\npubsub_patterns:0\nlatest_fork_usec:0\n"
                            ++ (codes "migrate_cached_sockets:0\nslave_expires_tracked_keys:0\n"
                                ++ (codes "active_defrag_hits:0\nactive_defrag_misses:0\n"
                                    ++ (codes
                                        "active_defrag_key_hits:0\nactive_defrag_key_misses:0\n\n")))))))))

unfoldable pub info_replication : List ℕ
info_replication =
    codes "# Replication\nrole:master\nconnected_slaves:0\n"
    ++ (codes "master_replid:29e814284ae0619c1b2c09175f4b5b6a5aafff48\n"
        ++ (codes "master_replid2:0000000000000000000000000000000000000000\n"
            ++ (codes "master_repl_offset:0\nsecond_repl_offset:-1\nrepl_backlog_active:0\n"
                ++ (codes "repl_backlog_size:1048576\nrepl_backlog_first_byte_offset:0\n"
                    ++ (codes "repl_backlog_histlen:0\n\n")))))

unfoldable pub info_cpu : List ℕ
info_cpu =
    codes "# CPU\nused_cpu_sys:20.83\nused_cpu_user:3.02\n"
    ++ (codes "used_cpu_sys_children:0.00\nused_cpu_user_children:0.00\n\n")

unfoldable pub info_commandstats : List ℕ
info_commandstats = codes "# Commandstats\ncmdstat_info:calls=3,usec=181,usec_per_call=60.33\n\n"

unfoldable pub info_cluster : List ℕ
info_cluster = codes "# Cluster\ncluster_enabled:0\n\n"

unfoldable pub info_keyspace : List ℕ
info_keyspace = codes "# Keyspace\n\n"

-- `bulkString`, with `%d` of package fmt as `decimal`.
unfoldable pub to_crlf : List ℕ → List ℕ
to_crlf [] = []
to_crlf (c ∷ text) = (if c == 10 then codes "\r\n" else c ∷ []) ++ to_crlf text

abbrev pub converted : Bool → List ℕ → List ℕ
converted true text = to_crlf text
converted false text = text

abbrev pub bulk : (ℕ → List ℕ) → List ℕ → List ℕ
bulk decimal text = codes "$" ++ (decimal (length text) ++ (codes "\r\n" ++ (text ++ codes "\r\n")))

unfoldable pub bulk_string : (ℕ → List ℕ) → List ℕ → Bool → List ℕ
bulk_string decimal text convert = bulk decimal (converted convert text)

-- `errorMsg("syntax")`, and `errorMsg("unknown")` with the command put in.
unfoldable pub syntax_error : List ℕ
syntax_error = codes "-ERR syntax error\r\n"

unfoldable pub unknown_error : List ℕ → List ℕ
unknown_error command = codes "-ERR unknown command '" ++ (command ++ codes "'\r\n")

-- The configured version and system stand in one of the texts.
module _ (version os : List ℕ) where
  unfoldable pub info_server : List ℕ
  info_server =
      codes "# Server\nredis_version:"
      ++ (version
          ++ (codes "\nredis_git_sha1:00000000\nredis_git_dirty:0\n"
              ++ (codes "redis_build_id:f1060845dd32471a\nredis_mode:standalone\nos:"
                  ++ (os
                      ++ (codes "\narch_bits:64\nmultiplexing_api:epoll\n"
                          ++ (codes
                                "atomicvar_api:atomic-builtin\ngcc_version:4.9.2\nprocess_id:1\n"
                              ++ (codes
                                    "run_id:15444ca686daa4cfcf621e65a7aed097110bb598\ntcp_port:6379\n"
                                  ++ (codes
                                        "uptime_in_seconds:10396\nuptime_in_days:0\nhz:10\nlru_clock:5820570\n"
                                      ++ (codes
                                          "executable:/data/redis-server\nconfig_file:\n\n")))))))))

  unfoldable pub sections : List ℕ
  unfolding info_server info_clients info_memory info_persistence info_stats info_replication
      info_cpu info_cluster
  sections =
      info_server
      ++ (info_clients
          ++ (info_memory
              ++ (info_persistence
                  ++ (info_stats ++ (info_replication ++ (info_cpu ++ info_cluster))))))

  unfoldable pub info_sections : List ℕ
  info_sections = sections ++ info_keyspace

  unfoldable pub all_sections : List ℕ
  all_sections = sections ++ (info_commandstats ++ info_keyspace)
