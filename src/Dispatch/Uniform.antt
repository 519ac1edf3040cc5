-- ===== src/Dispatch/Uniform.antt =====
-- src/localApi/dispatch.ts, `exchangePairing`: what a caller learns of a failed exchange.
use kubus_node.Base.{ℕ, ◌≡◌, ◌⊎◌, Option, Text, text_key, number_key, string_key}
use kubus_node.Pairing.Limiter.{assert_allowed, failed}
use kubus_node.Dispatch.Exchange.{ExchangeAnswer, issued, turned_away, ExchangeState}

-- The answer to a caller who did not get a credential.
abbrev pub rate_limited : ExchangeAnswer
rate_limited = turned_away (record { status_code = 429; code = "pairing_rate_limited" })

abbrev pub exchange_failed : ExchangeAnswer
exchange_failed = turned_away (record { status_code = 401; code = "pairing_exchange_failed" })

-- How an exchange can end: with a credential; refused by the limit on attempts; or with the one
-- answer for every wrong guess, which counts as a failed attempt. Without a credential the pairing
-- state is as it was.
abbrev pub IsUniform : Text → Text → ℕ → ℕ → ExchangeState → ExchangeState × ExchangeAnswer → Type 0
IsUniform client credential_id asked_at failed_at before (after, answer) =
    (answer ≡ issued credential_id)
    ⊎ ((after.pairing ≡ before.pairing)
        × ((answer ≡ rate_limited)
            ⊎ ((answer ≡ exchange_failed)
                × (after.attempts
                    ≡ failed client failed_at (assert_allowed client asked_at before.attempts).0))))
