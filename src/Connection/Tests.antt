-- ===== src/Connection/Tests.antt =====
-- The FIFOs of two clients.
use comp_p.Common.{arith, ℕ, ◌≡◌, ◌≢◌, ◌⊎◌, refl, true, false, none, some, Bytes, codes}
use comp_p.CString.Decimal.{show_ℕ, show_fuel}
use comp_p.Connection.{
  max_fifo_name_len, fifo_prefix, fifo_path, paths_within, get_fifo_paths, get_client_fifo_paths,
  Creating,
}
use comp_p.Connection.Paths.{fifo_paths_lem}
use comp_p.Connection.Handshake.{
  idle, connected, taking, System, update, accepted, held, start, connect, take_pid, reset_pid,
  create, signal_ready, poll, Reach, here, later, connected-WasMade, WasMade, ready, opening,
}
use comp_p.Connection.Lost.{after_signal, overwritten_request}

abbrev first_pid : ℕ
first_pid = 7

abbrev second_pid : ℕ
second_pid = 8

abbrev to_server : Bytes
to_server = codes "./FIFO_C2S_7"

abbrev to_client : Bytes
to_client = codes "./FIFO_S2C_7"

paths_7 : get_fifo_paths none 7 ≡ some (to_server, to_client)
unfolding get_fifo_paths paths_within fifo_path fifo_prefix show_ℕ show_fuel
paths_7 = refl

paths_8 : get_fifo_paths none 8 ≡ some (codes "./FIFO_C2S_8", codes "./FIFO_S2C_8")
unfolding get_fifo_paths paths_within fifo_path fifo_prefix show_ℕ show_fuel
paths_8 = refl

fifo_paths_lem_example :
    (get_client_fifo_paths max_fifo_name_len none 7 ≡ some (to_server, to_client))
    × (to_server ≢ codes "./FIFO_S2C_8")
    × (to_server ≡ codes "./FIFO_C2S_8" → first_pid ≡ second_pid)
    × (to_client ≡ codes "./FIFO_S2C_8" → first_pid ≡ second_pid)
fifo_paths_lem_example =
    fifo_paths_lem none 7 8 to_server to_client (codes "./FIFO_C2S_8") (codes "./FIFO_S2C_8")
      paths_7 paths_8

-- The old FIFO_C2S is removed, and the second call of mkfifo fails.
abbrev half_made : Creating
half_made = record {
  unlink_c2s_ok = true;
  unlink_s2c_ok = false;
  mkfifo_c2s_ok = true;
  mkfifo_s2c_ok = false;
  clean_up_ok = true;
}

-- The phase of the first client and the flags after a handshake with it.
abbrev one_waits : System
one_waits = after_signal 7 start

abbrev one_flagged : System
one_flagged = record one_waits {
  pending = 0;
  made = update start.made 7 true;
  flag = update start.flag 7 true;
  server = opening 7;
}

abbrev one_connected : System
one_connected = record one_flagged { phase = update one_flagged.phase 7 connected }

handshake : Reach start one_connected
unfolding update accepted
handshake =
    later
      (later
        (later
          (later (later (later here (connect 7 refl (λ e. omega (arith, e)))) (take_pid refl))
            (reset_pid 7 refl))
          (create 7 refl refl))
        (signal_ready 7 refl))
      (poll 7 refl refl)

connected-WasMade_example :
    (one_connected.phase 7 ≡ connected → WasMade 7 one_connected)
    × (one_connected.made 7 ≡ true → one_connected.phase 7 ≢ idle)
    × ((one_connected.server ≡ ready 7) ⊎ (one_connected.server ≡ opening 7)
        → one_connected.made 7 ≡ true)
connected-WasMade_example = connected-WasMade 7 handshake

-- Two signals before the server looks: it serves the second client.
abbrev second_served : System
second_served = record (after_signal 8 one_waits) { server = taking 8 }

overwritten_request_example : (second_served.phase 7 ≢ connected) × (second_served.flag 7 ≡ false)
unfolding update held
overwritten_request_example =
    overwritten_request one_waits 7 8 (λ e. omega (arith, e)) (λ e. omega (arith, e)) refl refl
      (λ e. omega (arith, e)) (later here (take_pid refl))
