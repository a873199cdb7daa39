-- ===== src/Protocol/Invariant/Settle.antt =====
-- How a world grows: a vote is settled, or a vote that is settled is sent.
use cornus.Base.{suc, ◌≤◌, ◌≡◌, true, false, List, [], ◌∷◌, arith, inl, inr}
use cornus.Config.Transaction.{HostId}
use cornus.Protocol.System.{In, update}
use cornus.Protocol.World.{World, Later, Verdict, undecided, yes_vote, tally}

module _ (w : World) (h : HostId) where
  unfoldable pub settle : Verdict → w.verdict h ≡ undecided → World
  settle x e = record {
    verdict = update w.verdict h x;
    sent = w.sent;
    honest = λ p q. ground (arith, w.honest p);
  }

  pub settle-Later : (x : Verdict) (e : w.verdict h ≡ undecided) → Later w (settle x e)
  unfolding settle
  settle-Later x e = record {
    yes_stays = λ p q. ground arith;
    veto_stays = λ p q. ground arith;
    sent_stays = λ p q. q;
  }

  unfoldable pub mark_sent : w.verdict h ≡ yes_vote → World
  mark_sent e = record {
    verdict = w.verdict;
    sent = update w.sent h true;
    honest = λ p q. ground (arith, w.honest p);
  }

  pub mark_sent-Later : (e : w.verdict h ≡ yes_vote) → Later w (mark_sent e)
  unfolding mark_sent
  mark_sent-Later e = record {
    yes_stays = λ p q. q;
    veto_stays = λ p q. q;
    sent_stays = λ p q. ground arith;
  }

  tally-mark_sent-le :
      (e : w.verdict h ≡ yes_vote) (ps : List HostId) → tally w ps ≤ tally (mark_sent e) ps
  unfolding mark_sent tally
  tally-mark_sent-le e [] = omega arith
  tally-mark_sent-le e (p ∷ ps) = ground (arith, tally-mark_sent-le e ps)

  -- A vote that was not sent before counts.
  pub tally-mark_sent :
      (e : w.verdict h ≡ yes_vote) (ps : List HostId)
      → In h ps
      → w.sent h ≡ false
      → suc (tally w ps) ≤ tally (mark_sent e) ps
  unfolding mark_sent tally
  tally-mark_sent e [] i f = absurd i
  tally-mark_sent e (p ∷ ps) (inl q) f = ground (arith, tally-mark_sent-le e ps)
  tally-mark_sent e (p ∷ ps) (inr i) f = ground (arith, tally-mark_sent e ps i f)
