-- ===== src/Handler/Wire/Clean.antt =====
-- The parameters of a packet hold two delimiters no more than its own texts do.
use cornus.Base.{
  ℕ, ◌<◌, ◌≤◌, ◌≡◌, String, true, Option, none, some, Bytes, Bytes-discrete, ℕ_discrete, List, [],
  ◌∷◌, codes, All, arith,
}
use cornus.Base.Split.{avoids, Avoids, avoids-All}
use cornus.Base.Dict.{put, without}
use cornus.Base.Decimal.{to_string, to_string-digits}
use cornus.Handler.Prog.{Packet}
use cornus.Handler.Wire.{packet_params}
use cornus.Tcp.Request.RoundTrip.{Both}

module _ (d e : ℕ) where
  abbrev pub ConfigAvoids : Option Bytes → Type 0
  ConfigAvoids none = Unit
  ConfigAvoids (some config) = Avoids d e config

  -- The texts of a packet.
  pub record IsClean (p : Packet) : Type 0 where
    pub endpoint : Avoids d e (codes p.endpoint)
    pub sender : Avoids d e p.sender
    pub config : ConfigAvoids p.config

  digits-Avoids :
      (s : Bytes) → d < b'0' → e < b'0' → All (λ c. (b'0' ≤ c) × (c ≤ b'9')) s → Avoids d e s
  digits-Avoids [] hd he h = tt
  digits-Avoids (c ∷ s) hd he (h, hs) =
      (((λ q. omega arith), (λ q. omega arith)), digits-Avoids s hd he hs)

  -- The keys.
  abbrev keys : List String
  keys = "sender" ∷ "type" ∷ "txid" ∷ "request" ∷ "command" ∷ "config" ∷ []

  abbrev pub CleanKeys : Type 0
  CleanKeys = All (λ k. avoids d e (codes k) ≡ true) keys

  named :
      (k : String) (v : Bytes)
      → avoids d e (codes k) ≡ true
      → Avoids d e v
      → Avoids d e (codes k) × Avoids d e v
  named k v h t = (avoids-All d e (codes k) h, t)

  -- The entries, the last first.
  entries-Both :
      (p : Packet) (c : Option Bytes)
      → IsClean p
      → Avoids d e (to_string p.txid)
      → ConfigAvoids c
      → CleanKeys
      → Both (Avoids d e) (packet_params (record p { config = c })).entries
  unfolding packet_params put without codes Bytes-discrete ℕ_discrete
  entries-Both p none w n h (k1, (k2, (k3, (k4, ks)))) = (
    named "sender" p.sender k1 w.sender,
    (
      named "type" (codes p.endpoint) k2 w.endpoint,
      (named "txid" (to_string p.txid) k3 n, (named "request" [] k4 tt, tt)),
    ),
  )
  entries-Both p (some config) w n h (k1, (k2, (k3, (k4, (k5, (k6, t)))))) = (
    named "sender" p.sender k1 w.sender,
    (
      named "type" (codes p.endpoint) k2 w.endpoint,
      (
        named "txid" (to_string p.txid) k3 n,
        (named "command" [] k5 tt, (named "config" config k6 h, tt)),
      ),
    ),
  )

  pub params-Both :
      (p : Packet)
      → IsClean p
      → d < b'0'
      → e < b'0'
      → CleanKeys
      → Both (Avoids d e) (packet_params p).entries
  params-Both p w hd he ks =
      entries-Both p p.config w (digits-Avoids (to_string p.txid) hd he (to_string-digits p.txid))
        w.config ks
