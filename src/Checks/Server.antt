-- ===== src/Checks/Server.antt =====
-- A router for paths of three parameters, and a path that the server reads back.
use cornus.Base.{
  ℕ, ◌≡◌, refl, Option, none, some, Bytes, Bytes-discrete, ℕ_discrete, [], ◌∷◌, ◌++◌, codes, All,
  eqb, if◌then◌else◌, true, false, arith, ap,
}
use cornus.Base.Dict.{get, lookup}
use cornus.Base.Decimal.{stoi}
use cornus.Dbms.Manager.{transaction_type, new_log_manager}
use cornus.Dbms.Server.Http.{HttpServer, dbms_main, listens, usage_error}
use cornus.Dbms.Client.OverHttp.{Separates, IsServed, request-IsServed}
use cornus.Dbms.Server.{PathParams, get_log_address, get_path}
use cornus.Dbms.Server.Paths.{is_plain, Router, Matches, get_log_address-get_path}

word : Bytes → Bytes
word [] = []
word (c ∷ s) = if eqb c b'/' then [] else c ∷ word s

behind : Bytes → Bytes
behind [] = []
behind (c ∷ s) = if eqb c b'/' then s else behind s

-- What follows a beginning, if the path has it.
strip : Bytes → Bytes → Option Bytes
strip [] p = some p
strip (c ∷ s) [] = none
strip (c ∷ s) (d ∷ p) = let rest = strip s p in if eqb c d then rest else none

three : Bytes → PathParams
unfolding word behind
three p = record {
  entries =
      (codes "txId", word p)
      ∷ (codes "clId", word (behind p))
      ∷ (codes "dOrt", word (behind (behind p)))
      ∷ [];
}

routed : Option Bytes → Option PathParams
unfolding behind three
routed none = none
routed (some p) = some (three (behind p))

router : Router
unfolding strip routed
router e [] = none
router e (c ∷ p) = routed (strip (codes e) p)

not_slash : (c : ℕ) → is_plain c ≡ true → eqb c b'/' ≡ false
not_slash c h = ground arith

word-plain : (w : Bytes) → All (λ c. is_plain c ≡ true) w → word w ≡ w
unfolding word
word-plain [] h = refl
word-plain (c ∷ w) (h, hs) = rw (not_slash c h, word-plain w hs) refl

word-append : (w s : Bytes) → All (λ c. is_plain c ≡ true) w → word (w ++ b'/' ∷ s) ≡ w
unfolding word
word-append [] s h = refl
word-append (c ∷ w) s (h, hs) = rw (not_slash c h, word-append w s hs) refl

behind-append : (w s : Bytes) → All (λ c. is_plain c ≡ true) w → behind (w ++ b'/' ∷ s) ≡ s
unfolding behind
behind-append [] s h = refl
behind-append (c ∷ w) s (h, hs) = rw (not_slash c h, behind-append w s hs) refl

strip-append : (w s : Bytes) → strip w (w ++ s) ≡ some s
unfolding strip
strip-append [] s = refl
strip-append (c ∷ w) s = ground (arith, strip-append w s)

router-Matches : Matches router
unfolding router routed three behind get lookup codes Bytes-discrete ℕ_discrete
router-Matches e a b c (na, ha) (nb, hb) (nc, hc) =
    let p = a ++ (b'/' ∷ (b ++ (b'/' ∷ c))) in
    (
      three p,
      rw (strip-append (codes e) (b'/' ∷ p)) refl,
      ap some (word-append a (b ++ (b'/' ∷ c)) ha),
      rw (behind-append a (b ++ (b'/' ∷ c)) ha, word-append b c hb) refl,
      rw (behind-append a (b ++ (b'/' ∷ c)) ha, behind-append b c hb, word-plain c hc) refl,
    )

get_log_address-get_path_example :
    (ps : PathParams) × (router "LOG_ONCE"
        (get_path "LOG_ONCE" 65536 (codes "b:2") transaction_type)
      ≡ some ps)
    × (get_log_address ps
        ≡ some (record { tx_id = 65536; client_id = codes "b:2"; type = transaction_type }))
unfolding codes
get_log_address-get_path_example =
    get_log_address-get_path router router-Matches "LOG_ONCE" 65536 (codes "b:2") transaction_type
      (omega arith) ((λ e. cc), (refl, (refl, (refl, tt))))

router-Separates : Separates router
unfolding router routed strip codes
router-Separates a b c ha hb hc = refl

abbrev library : HttpServer
library = record { route = router; not_found = ""; on_exception = "" }

request-IsServed_example : IsServed library 65536 (codes "b:2") transaction_type new_log_manager
unfolding codes
request-IsServed_example =
    request-IsServed library 65536 (codes "b:2") transaction_type new_log_manager router-Matches
      router-Separates (omega arith) ((λ e. cc), (refl, (refl, (refl, tt))))

-- The start of the DBMS with the port, the latency and the host of the deployment.
starts :
    dbms_main {Latency = ℕ} (λ latency. 5) 10 (codes "9000" ∷ codes "5" ∷ codes "0.0.0.0" ∷ [])
    ≡ listens (codes "0.0.0.0") 9000 5
unfolding dbms_main codes stoi
starts = refl

no_arguments : dbms_main {Latency = ℕ} (λ latency. 5) 10 [] ≡ usage_error
unfolding dbms_main
no_arguments = refl
