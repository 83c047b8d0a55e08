-- ===== src/Mqtt/Connection/Tests.antt =====
-- The connection's theorems over a world with two certificates.
use zybo_z.Common.{ℕ, ◌≤◌, ◌≡◌, refl, arith, true, Option, none, some, List, [], ◌∷◌, ◌++◌, length}
use zybo_z.Common.Int.{ℤ, pos, negsuc}
use zybo_z.Mqtt.Types.{Handle, connect, init}
use zybo_z.Mqtt.Fixtures.{writing}
use zybo_z.Mqtt.Connection.Calls.{
  bio_new_mem_buf, gethostbyname, ssl_new, close, Net, Connection, connection_start, call, run,
}
use zybo_z.Mqtt.Connection.{
  add_certs, configure, load_certs, ssl_init, reach_host, tcp_connect, verify_peer, ssl_handshake,
  connect_all, mqtt_handle_init, deinit,
}
use zybo_z.Mqtt.Connection.Fixtures.{online, online-IsNet, online-IsReachable}
use zybo_z.Mqtt.Connection.Protocol.{held, nothing}
use zybo_z.Mqtt.Connection.Certificates.{SameVariables, loop_calls, all_read, add_certs_lem}
use zybo_z.Mqtt.Connection.Setup.{Owns, connection_start-Owns}
use zybo_z.Mqtt.Connection.Lifecycle.{Released, Connects, mqtt_handle_init_lem}
use zybo_z.Mqtt.Connection.Illegal.{FirstIllegal}
use zybo_z.Mqtt.Connection.Stale.{connect_all_freed, tcp_connect-deinit}

abbrev without_dns : Net ℕ
without_dns gethostbyname n = (n, pos 0)
without_dns k n = online k n

abbrev without_bio : Net ℕ
without_bio bio_new_mem_buf n = (n, pos 0)
without_bio k n = online k n

add_certs_example :
    (c' : Connection ℕ) × (ts : List (ℤ × ℤ × ℤ)) × (add_certs online 3 (connection_start 2)
      ≡ some c')
    × (length ts ≤ 2)
    × (all_read ts ≡ true)
    × (c'.calls ≡ [] ++ loop_calls ts)
    × SameVariables (connection_start 2) c'
add_certs_example =
    add_certs_lem online (λ n. n) 2 online-IsNet 3 (connection_start 2) (omega arith)

mqtt_handle_init_example :
    (h' : Handle) × (c : Connection ℕ) × (s : ℤ) × (mqtt_handle_init online 3
        (b'm' ∷ [])
        (b'u' ∷ [])
        (b'p' ∷ [])
        writing
        (connection_start 0)
      ≡ some (h', c, s))
    × (h'.state ≡ connect)
    × (h'.next_state ≡ connect)
    × (h'.data_state ≡ init)
    × Owns c
    × Connects c s
    × Released (deinit online c)
mqtt_handle_init_example =
    mqtt_handle_init_lem online (λ n. n) 2 online-IsNet 3 (b'm' ∷ []) (b'u' ∷ []) (b'p' ∷ [])
      writing 0 (omega arith) (λ w. refl) online-IsReachable

connect_all_freed_example :
    (c : Connection ℕ) × (c' : Connection ℕ) × (s : ℤ) × (d : Option ℕ) × (ssl_init without_bio 3
        (connection_start 0)
      ≡ some (c, negsuc 0))
    × (held c ≡ some nothing)
    × (c.ssl_ctx ≡ true)
    × (connect_all without_bio 3 (connection_start 0) ≡ some (c', s))
    × FirstIllegal c' (ssl_new true) (record nothing { descriptor = d })
connect_all_freed_example = connect_all_freed without_bio 3 0 (λ w. refl) (λ w. refl)

tcp_connect-deinit_example :
    let c' = (tcp_connect without_dns (connection_start 0)).0 in
    ((tcp_connect without_dns (connection_start 0)).1 ≡ negsuc 0)
    × (c'.adafruit_io_sock ≡ pos 3)
    × (held c' ≡ some nothing)
    × FirstIllegal (deinit without_dns c') (close (pos 3)) nothing
tcp_connect-deinit_example =
    tcp_connect-deinit without_dns (connection_start 0) 3 (connection_start-Owns {W = ℕ} 0) refl
      refl (λ w. refl)

-- Over the world that answers, the status is 0.
abbrev status_of : Option (Handle × Connection ℕ × ℤ) → Option ℤ
status_of none = none
status_of (some (h, c, s)) = some s

init_online :
    status_of (mqtt_handle_init online 3 [] [] [] writing (connection_start 0)) ≡ some (pos 0)
unfolding mqtt_handle_init connect_all ssl_init load_certs add_certs configure tcp_connect
    reach_host ssl_handshake verify_peer call run
init_online = refl
