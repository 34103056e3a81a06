-- ===== src/Pipeline/Events.antt =====
-- What the worker reads of an event is what the handler wrote into it.
use trade_journal.Prelude.{
  ◌-◌, ◌%◌, ◌≡◌, refl, ap, ◌∙◌, Bool, true, false, ◌||◌, Option, none, some, arith, ◌==◌, is_some,
  not, Option-cases, inl, inr,
}
use trade_journal.Prelude.Int.{ℤ}
use trade_journal.Prelude.Time.{second}
use trade_journal.Platform.{Platform, int, bool}
use trade_journal.Platform.Laws.{TextLaws}
use trade_journal.Domain.Trade.{Trade}
use trade_journal.Cache.Stream.{arg_texts}
use trade_journal.Api.TradeHandler.{event_data}
use trade_journal.Pipeline.{Fields, field, pnl_of, or_zero}

module _ {p : Platform} (laws : TextLaws p) (t : Trade p) where
  abbrev event : Fields
  event = arg_texts p (event_data t)

  -- The fields of the worker, and the row that was published.
  pub record Reads : Type 0 where
    pub trade_id : field event "tradeId" ≡ t.trade_id
    pub user_id : field event "userId" ≡ t.user_id
    pub session_id : field event "sessionId" ≡ t.session_id
    pub status : field event "status" ≡ t.status
    pub outcome : field event "outcome" ≡ or_zero "" t.outcome
    pub pnl : pnl_of p (field event "pnl") ≡ or_zero p.dec_zero t.pnl
    pub emotional_state : field event "emotionalState" ≡ or_zero "" t.emotional_state
    pub plan_adherence : not (field event "planAdherence" == "") ≡ is_some t.plan_adherence
    pub entry_at : p.parse_time (field event "entryAt") ≡ some (t.entry_at - t.entry_at % second)
    pub revenge_flag :
        (field event "revengeFlag" == "true" || field event "revengeFlag" == "1") ≡ t.revenge_flag

  texts :
      (field event "tradeId" ≡ t.trade_id)
      × (field event "userId" ≡ t.user_id)
      × (field event "sessionId" ≡ t.session_id)
      × (field event "status" ≡ t.status)
  unfolding event_data field
  texts = (laws.arg_str _, laws.arg_str _, laws.arg_str _, laws.arg_str _)

  outcome_read : field event "outcome" ≡ or_zero "" t.outcome
  unfolding event_data field
  outcome_read = elim (Option-cases t.outcome) [
    | inl e ↦ ground (arith, e)
    | inr (o, e) ↦ ground (arith, e, laws.arg_str o)
  ]

  emotional_state_read : field event "emotionalState" ≡ or_zero "" t.emotional_state
  unfolding event_data field
  emotional_state_read = elim (Option-cases t.emotional_state) [
    | inl e ↦ ground (arith, e)
    | inr (o, e) ↦ ground (arith, e, laws.arg_str o)
  ]

  pnl_text : field event "pnl" ≡ elim t.pnl [ none ↦ "" | some d ↦ p.dec_show d ]
  unfolding event_data field
  pnl_text = elim (Option-cases t.pnl) [
    | inl e ↦ ground (arith, e)
    | inr (d, e) ↦ ground (arith, e, laws.arg_str (p.dec_show d))
  ]

  pnl_read : pnl_of p (field event "pnl") ≡ or_zero p.dec_zero t.pnl
  unfolding pnl_of
  pnl_read = ap (pnl_of p) pnl_text ∙ by_pnl t.pnl
    where
      by_pnl :
          (o : Option p.Decimal)
          → pnl_of p (elim o [ none ↦ "" | some d ↦ p.dec_show d ]) ≡ or_zero p.dec_zero o
      by_pnl none = refl
      by_pnl (some d) = rw (laws.show_nonempty d, laws.parse-show d) refl

  plan_adherence_text :
      field event "planAdherence"
      ≡ elim t.plan_adherence [ none ↦ "" | some n ↦ p.arg_text (int n) ]
  unfolding event_data field
  plan_adherence_text = ground arith

  plan_adherence_read : not (field event "planAdherence" == "") ≡ is_some t.plan_adherence
  plan_adherence_read = ap (λ s. not (s == "")) plan_adherence_text ∙ by_rating t.plan_adherence
    where
      by_rating :
          (o : Option ℤ)
          → not (elim o [ none ↦ "" | some n ↦ p.arg_text (int n) ] == "") ≡ is_some o
      by_rating none = refl
      by_rating (some n) = rw (laws.arg_int_nonempty n) refl

  entry_at_read : p.parse_time (field event "entryAt") ≡ some (t.entry_at - t.entry_at % second)
  unfolding event_data field
  entry_at_read =
      ap p.parse_time (laws.arg_str (p.format_time t.entry_at)) ∙ laws.parse-format t.entry_at

  revenge_flag_text : field event "revengeFlag" ≡ p.arg_text (bool t.revenge_flag)
  unfolding event_data field
  revenge_flag_text = ground arith

  revenge_flag_read :
      (field event "revengeFlag" == "true" || field event "revengeFlag" == "1") ≡ t.revenge_flag
  revenge_flag_read = ap (λ s. s == "true" || s == "1") revenge_flag_text ∙ by_flag t.revenge_flag
    where
      by_flag : (b : Bool) → (p.arg_text (bool b) == "true" || p.arg_text (bool b) == "1") ≡ b
      by_flag true = rw laws.arg_true refl
      by_flag false = rw laws.arg_false refl

  -- The worker reads from an event what the handler published of the row: its ids, its status, its
  -- outcome, profit and emotional state or their defaults, whether it has a rating, its flag, and
  -- its entry to the second.
  pub event_data-Reads : Reads
  event_data-Reads =
      let (trade_id, user_id, session_id, status) = texts in
      record {
        trade_id = trade_id;
        user_id = user_id;
        session_id = session_id;
        status = status;
        outcome = outcome_read;
        pnl = pnl_read;
        emotional_state = emotional_state_read;
        plan_adherence = plan_adherence_read;
        entry_at = entry_at_read;
        revenge_flag = revenge_flag_read;
      }
