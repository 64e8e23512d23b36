-- ===== src/Tracker/Queues.antt =====
-- parachain-tracer/src/message_queues_tracker.rs: the HRMP channels of the parachain, as maps from
-- the other parachain's id.
use polkadot_introspector.Prelude.{
  ℕ, ◌≡◌, ◌↔◌, refl, Bool, false, ◌||◌, List, [], ◌∷◌, arith, any, keep, ltb,
}
use polkadot_introspector.Tracker.Types.{SubxtHrmpChannel}

abbrev pub Channels : Type 0
Channels = List (ℕ × SubxtHrmpChannel)

pub record MessageQueuesTracker : Type 0 where
  pub inbound_hrmp_channels : Channels
  pub outbound_hrmp_channels : Channels

unfoldable pub empty_queues : MessageQueuesTracker
empty_queues = record { inbound_hrmp_channels = []; outbound_hrmp_channels = [] }

unfoldable pub set_hrmp_channels : MessageQueuesTracker → Channels → Channels → MessageQueuesTracker
set_hrmp_channels q inbound outbound = record {
  inbound_hrmp_channels = inbound;
  outbound_hrmp_channels = outbound;
}

-- `|(_, queue)| queue.total_size > 0`
abbrev pub has_messages : ℕ × SubxtHrmpChannel → Bool
has_messages c = ltb 0 c.1.total_size

unfoldable pub has_hrmp_messages : MessageQueuesTracker → Bool
has_hrmp_messages q =
    any has_messages q.inbound_hrmp_channels || any has_messages q.outbound_hrmp_channels

unfoldable pub active_inbound_channels : MessageQueuesTracker → Channels
active_inbound_channels q = keep has_messages q.inbound_hrmp_channels

unfoldable pub active_outbound_channels : MessageQueuesTracker → Channels
active_outbound_channels q = keep has_messages q.outbound_hrmp_channels

any-keep {ℓ} : {A : Type ℓ} (p : A → Bool) (xs : List A) → (any p xs ≡ false) ↔ (keep p xs ≡ [])
unfolding any keep
any-keep p [] = (λ h. refl, λ h. refl)
any-keep p (x ∷ xs) = ground (arith, any-keep p xs)

-- There are messages exactly if one of the two lists of active channels is not empty.
pub has_hrmp_messages_iff :
    (q : MessageQueuesTracker)
    → (has_hrmp_messages q ≡ false)
      ↔ ((active_inbound_channels q ≡ []) × (active_outbound_channels q ≡ []))
unfolding has_hrmp_messages active_inbound_channels active_outbound_channels
has_hrmp_messages_iff q = ground (
  arith,
  any-keep has_messages q.inbound_hrmp_channels,
  any-keep has_messages q.outbound_hrmp_channels,
)
