-- ===== src/Daemon/Jobs/Identifier.antt =====
-- The identifier of a proposal, and whether it is a safe one.
use omarchy_premonition.Plain.{IsPlainText, IsPlainText-append, decimal-IsPlainText}
use omarchy_premonition.Protocol.SafeId.{SafeId}
use omarchy_premonition.Daemon.Jobs.{proposal_text}
use omarchy_premonition.Base.{ℕ, ◌++◌, ◌≡◌, refl, arith, text, is_plain_byte, decimal, all, ok}
use omarchy_premonition.Protocol.SafeId

pub proposal_text-IsPlainText : (ms sequence : ℕ) → IsPlainText 2 43 (proposal_text ms sequence)
unfolding proposal_text
proposal_text-IsPlainText ms sequence =
    IsPlainText-append 2 2 0 41 (text "p-") (decimal ms ++ (text "-" ++ decimal sequence)) prefix (
      IsPlainText-append 0 20 0 21 (decimal ms) (text "-" ++ decimal sequence)
        (decimal-IsPlainText ms)
        (IsPlainText-append 0 1 0 20 (text "-") (decimal sequence) dash
          (decimal-IsPlainText sequence)))
  where
    prefix : IsPlainText 2 2 (text "p-")
    prefix = record {
      long = omega arith;
      short = omega arith;
      plain = unfold all is_plain_byte in refl;
    }

    dash : IsPlainText 0 1 (text "-")
    dash = record {
      long = omega arith;
      short = omega arith;
      plain = unfold all is_plain_byte in refl;
    }

-- The daemon's identifier for a proposal is accepted by `SafeId::new` at every time and sequence
-- number.
pub new-proposal_text :
    (ms sequence : ℕ)
    → SafeId.new (proposal_text ms sequence) ≡ ok (record { as_str = proposal_text ms sequence })
new-proposal_text ms sequence =
    let v = proposal_text-IsPlainText ms sequence in
    SafeId.new_of_IsValid (record { as_str = proposal_text ms sequence })
      (record {
        nonempty = omega (arith, v.long);
        bounded = omega (arith, v.short);
        plain = v.plain;
      })
