-- ===== src/Checks/Config.antt =====
-- Configurations and transaction ids on concrete inputs.
use mathlib.Core.List.{Perm}
use cornus.Base.{
  ℕ, ℕ_discrete, ◌<◌, ◌≢◌, ◌%◌, ◌^◌, ◌↔◌, ◌≡◌, refl, some, List, [], ◌∷◌, ◌++◌, codes, length, take,
  arith,
}
use cornus.Base.Decimal.{to_string, stoul, stoul-to_string}
use cornus.Config.Transaction.{
  HostId, TransactionConfig, new_transaction_config, config_to_string,
  new_transaction_config-config_to_string,
}
use cornus.Config.Host.{HostJson, HostConfig, new_host_config, choose_replicators, sort}
use cornus.Config.Host.Order.{IsSplit}
use cornus.Config.Host.Replicators.{id_of, new_host_config-replicators}
use cornus.Node.TxId.Racing.{new_calls, returned, run_calls, returned_ids_differ}
use cornus.Node.TxId.{IdSource, get_unique_transaction_id, after, ids_repeat_iff}

stoul-to_string_example : stoul (to_string 65537) ≡ some 65537
stoul-to_string_example = stoul-to_string 65537 (omega arith)

abbrev three_nodes : TransactionConfig
three_nodes = record {
  coordinator = codes "h:1";
  participants = codes "h:2" ∷ codes "h:3" ∷ [];
  txid = 3;
}

new_transaction_config-config_to_string_example :
    new_transaction_config (config_to_string three_nodes) 3 ≡ three_nodes
unfolding codes
new_transaction_config-config_to_string_example =
    new_transaction_config-config_to_string three_nodes ((λ e. cc), (refl, (refl, (refl, tt))))
      (((λ e. cc), (refl, (refl, (refl, tt)))), (((λ e. cc), (refl, (refl, (refl, tt)))), tt))

blanks :
    new_transaction_config (codes "  h:1   h:2 ") 3
    ≡ record { coordinator = codes "h:1"; participants = codes "h:2" ∷ []; txid = 3 }
unfolding codes new_transaction_config
blanks = refl

-- host2.config, with f = 2
abbrev pub host2 : HostJson
host2 = record {
  host = codes "localhost";
  others =
      codes "localhost:8000"
      ∷ codes "localhost:8002"
      ∷ codes "localhost:8006"
      ∷ codes "localhost:8008"
      ∷ codes "localhost:8010"
      ∷ [];
  dbms_address = codes "localhost:9000";
  host_num = 2;
  port = 8008;
  timeout_millis = 500;
  f = 2;
}

new_host_config-replicators_example :
    (hc : HostConfig) × (below above rest : List HostId) × (new_host_config host2 ≡ some hc)
    × (hc.id ≡ id_of host2)
    × (hc.replicators ≡ take 2 (above ++ below))
    × IsSplit hc.id hc.all_others below above
    × Perm hc.all_others host2.others
    × (length hc.replicators ≡ 2)
    × Perm (hc.replicators ++ rest) host2.others
new_host_config-replicators_example = new_host_config-replicators host2 (omega arith)

abbrev pub host2_config : HostConfig
host2_config = record {
  id = codes "localhost:8008";
  all_others =
      codes "localhost:8000"
      ∷ codes "localhost:8002"
      ∷ codes "localhost:8006"
      ∷ codes "localhost:8008"
      ∷ codes "localhost:8010"
      ∷ [];
  dbms_address = codes "localhost:9000";
  host_num = 2;
  port = 8008;
  host = codes "localhost";
  timeout = 500;
  f = 2;
  replicators = codes "localhost:8008" ∷ codes "localhost:8010" ∷ [];
}

pub host2_built : new_host_config host2 ≡ some host2_config
unfolding new_host_config choose_replicators sort codes to_string
host2_built = refl

wraps_around :
    choose_replicators (codes "localhost:8009") (sort host2.others) 2
    ≡ some (codes "localhost:8010" ∷ codes "localhost:8000" ∷ [])
unfolding choose_replicators sort codes
wraps_around = refl

abbrev source : IdSource
source = record { node_id = 3; transaction_counter = 5 }

ids_repeat_iff_example :
    ((get_unique_transaction_id (after 65536 source)).0
      ≡ (get_unique_transaction_id (after 0 source)).0)
    ↔ (65536 % 2 ^ 16 ≡ 0 % 2 ^ 16)
ids_repeat_iff_example = ids_repeat_iff source 65536 0 (omega arith)

-- Two calls on one node that both read the counter before either stores it return the same id.
both_return_it :
    ((run_calls (new_calls source) (0 ∷ 1 ∷ 0 ∷ 0 ∷ 1 ∷ 1 ∷ [])).calls 0 ≡ returned 327683)
    × ((run_calls (new_calls source) (0 ∷ 1 ∷ 0 ∷ 0 ∷ 1 ∷ 1 ∷ [])).calls 1 ≡ returned 327683)
unfolding run_calls ℕ_discrete
both_return_it = (refl, refl)

abbrev other_source : IdSource
other_source = record { node_id = 4; transaction_counter = 5 }

first_returns : (run_calls (new_calls source) (0 ∷ 1 ∷ 0 ∷ 0 ∷ [])).calls 0 ≡ returned 327683
unfolding run_calls ℕ_discrete
first_returns = refl

other_returns : (run_calls (new_calls other_source) (7 ∷ 7 ∷ 7 ∷ [])).calls 7 ≡ returned 327684
unfolding run_calls ℕ_discrete
other_returns = refl

returned_ids_differ_example : ◌≢◌ {A = ℕ} 327683 327684 × (327683 < 2 ^ 32) × (327684 < 2 ^ 32)
returned_ids_differ_example =
    returned_ids_differ source other_source (0 ∷ 1 ∷ 0 ∷ 0 ∷ []) (7 ∷ 7 ∷ 7 ∷ []) 0 7 327683 327684
      (omega arith) (omega arith) (λ e. omega arith) first_returns other_returns
