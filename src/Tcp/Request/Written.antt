-- ===== src/Tcp/Request/Written.antt =====
-- Which bytes stand in a request that is written from parameters.
use cornus.Base.{ℕ, List, [], ◌∷◌, ◌++◌, Bytes, All, All-append}
use cornus.Tcp.Request.{
  key_value_delim, pair_delim, Params, Visit, write_pairs, write_params, params_request,
}
use cornus.Tcp.Request.RoundTrip.{Both, Visits, visit-Both}

module _ (P : ℕ → Type 0) (pk : P key_value_delim) (pp : P pair_delim) where
  write_pairs-All :
      (l : List (Bytes × Bytes)) (out : Bytes)
      → All P out
      → Both (All P) l
      → All P (write_pairs l out)
  unfolding write_pairs
  write_pairs-All [] out ho h = ho
  write_pairs-All ((k, v) ∷ l) out ho ((hk, hv), hs) =
      let val = All-append P v (pair_delim ∷ []) hv (pp, tt) in
      let pair = All-append P k (key_value_delim ∷ (v ++ (pair_delim ∷ []))) hk (pk, val) in
      write_pairs-All l (out ++ (k ++ (key_value_delim ∷ (v ++ (pair_delim ∷ [])))))
        (All-append P out _ ho pair) hs

  pub params_request-All :
      (visit : Visit) (endpoint : Bytes) (params : Params)
      → Visits visit
      → Both (All P) params.entries
      → All P (params_request visit endpoint params).request
  unfolding params_request write_params
  params_request-All visit endpoint params visits h =
      write_pairs-All (visit params) [] tt (visit-Both (All P) visit params visits h)
