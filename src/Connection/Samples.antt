-- ===== src/Connection/Samples.antt =====
-- A small connection and what it shares, for the tests.
use directswarm.Base.{ℕ, false, [], ◌∷◌, none, replicate}
use directswarm.Swarm.{SwarmAddress}
use directswarm.Mirror.{fresh}
use directswarm.Pacer.{Pacer, default_lambda_ms, default_rate}
use directswarm.Cheque.{Peer}
use directswarm.Connection.{Shared, Conn, Turn}

abbrev pub address : ℕ → SwarmAddress
address b = replicate 32 b

abbrev pub silent : Peer
silent = record {
  opens = false;
  greets = false;
  response = none;
  signs = λ n. none;
  writes = λ b. false;
}

abbrev pub tick : ℕ → Turn
tick now = record { now = now; reply = none; peer = silent }

abbrev pub conn : Conn
conn = record {
  price = λ a. 10_000;
  prefix = 7;
  pipeline = 2;
  prepay = false;
  beneficiary = replicate 20 1;
  issuable = 0;
  max_issue_plur = 1_000_000_000_000;
}

abbrev pub pool_of_two : Shared
pool_of_two = record {
  pool = (7, address 1 ∷ address 2 ∷ []) ∷ [];
  store = record { dat = []; end_of_data = 0; index = []; dirty = 0; sidecar = none };
  fallback = [];
  books = record { issued_plur = 0; ledger = record { map = []; dirty = false } };
  wind_down = false;
  direct_bytes = 0;
  direct_ok = 0;
  refresh_units = 0;
  cheques = 0;
  cheque_plur = 0;
}

abbrev pub fresh_pacer : Pacer
fresh_pacer = record {
  mirror = fresh;
  announced = none;
  lambda_ms = default_lambda_ms;
  unvalidated = [];
  rate = default_rate;
  settled_units = 0;
  prepaid = 0;
  avg_price = 230_000;
  last_refresh = none;
  last_cheque = none;
}
