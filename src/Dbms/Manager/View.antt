-- ===== src/Dbms/Manager/View.antt =====
-- The manager as a total map from addresses to log pairs: what a call changes, and what it leaves.
use cornus.Base.{ℕ, ◌≡◌, Bytes, Bytes-discrete, ℕ_discrete, ite, arith}
use cornus.Base.Dict.{put, get-put}
use cornus.Dbms.Log.{LogPair}
use cornus.Dbms.Manager.{LogManager, client_logs, pair_at, store_pair}

client_logs-store_pair :
    (m : LogManager) (tx : ℕ) (cl : Bytes) (p : LogPair) (tx' : ℕ)
    → client_logs (store_pair m tx cl p) tx'
      ≡ ite (ℕ_discrete tx tx') (put Bytes-discrete (client_logs m tx) cl p) (client_logs m tx')
unfolding client_logs store_pair
client_logs-store_pair m tx cl p tx' = rw get-put (ground arith)

pub pair_at-store_pair :
    (m : LogManager) (tx : ℕ) (cl : Bytes) (p : LogPair) (tx' : ℕ) (cl' : Bytes)
    → pair_at (store_pair m tx cl p) tx' cl'
      ≡ ite
          (ℕ_discrete tx tx')
          (ite (Bytes-discrete cl cl') p (pair_at m tx' cl'))
          (pair_at m tx' cl')
unfolding pair_at
pair_at-store_pair m tx cl p tx' cl' = ground (
  arith,
  client_logs-store_pair m tx cl p tx',
  get-put Bytes-discrete (client_logs m tx) cl cl' p,
)
