-- ===== src/Mode.antt =====
-- src/mode.rs: whether the pool dials or accepts its connections.
use netconnpool_rust.Base.{
  ℕ, Bool, true, false, List, String, codes, same_text, to_lowercase, if◌then◌else◌,
}

pub data PoolMode : Type 0 where
  client server : PoolMode

abbrev pub eq : PoolMode → PoolMode → Bool
eq client client = true
eq server server = true
eq _ _ = false

unfoldable pub to_string : PoolMode → String
to_string client = "client"
to_string server = "server"

unfoldable pub parse_pool_mode : List ℕ → PoolMode
parse_pool_mode s =
    if same_text (to_lowercase s) (codes "client")
    then client
    else if same_text (to_lowercase s) (codes "server")
    then server
    else client
