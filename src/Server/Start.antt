-- ===== src/Server/Start.antt =====
-- server_main.c, the start of main: what has to succeed before the loop.
use comp_p.Common.{ℕ, Bool, true, not, List, [], Option, none, some, if◌then◌else◌, Bytes}
use comp_p.Auth.{AuthDb, auth_load}
use comp_p.Handles.{HandleStore}
use comp_p.ServerCommon.{zero_client}
use comp_p.Threadpool.{Threadpool}
use comp_p.Threadpool.Life.{Resources, create_pool}
use comp_p.Server.Clients.{parse_arguments, nothing_released}
use comp_p.Server.Main.{Server}

-- main exits with the usage, returns 1, or comes to its loop.
pub data Start : Type 0 where
  usage : Start
  returns_1 : Start
  serves : Server → Start

unfoldable pub with_pool : Option AuthDb → Option HandleStore → Option Threadpool → Start
with_pool none store pool = returns_1
with_pool (some db) none pool = returns_1
with_pool (some db) (some store) none = returns_1
with_pool (some db) (some store) (some pool) = serves (record {
  clients = [];
  world = record { auth = some db; handles = store; client = zero_client; log = [] };
  pool = pool;
  released = nothing_released;
})

unfoldable pub server_start :
    Bool → (ℕ → Bool) → Option Bytes → Option HandleStore → Resources → List Bytes → Start
unfolding with_pool
server_start signals_ok calloc_ok users_file store os arguments = elim (parse_arguments arguments) [
  | none ↦ usage
  | some threadpool_size ↦
      if not signals_ok
      then returns_1
      else with_pool (auth_load calloc_ok users_file) store (create_pool os threadpool_size true).0
]
