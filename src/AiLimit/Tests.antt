-- ===== src/AiLimit/Tests.antt =====
-- Runs of internal/api/ailimit.go, and the theorems at inputs where they hold.
use sajni_api.Prelude.{ℕ, ◌+◌, ◌<◌, ◌-◌, ◌≤◌, ◌≡◌, ◌⊎◌, [], ◌∷◌, length, arith, refl}
use sajni_api.Prelude.Int.{pos, ◌-ℤ◌}
use sajni_api.AiLimit.{
  ai_window, ai_max_messages, ai_max_tokens, Log, set, since, tokens_of, allowed, retry_after,
  verdict, check, add_usage,
}
use sajni_api.AiLimit.Window.{recent, HasRoom, check_by_hour}
use sajni_api.AiLimit.Sequence.{
  Server, owe, Reach, here, next, start, spend, fresh, IsLimited, Reach-IsLimited,
}

abbrev no_calls : Log
no_calls uid = []

-- Two hours after the zero time, and half an hour later.
abbrev first_call : ℕ
first_call = 7200000000000

abbrev second_call : ℕ
second_call = 9000000000000

abbrev costly : Log
costly = set no_calls "u" (record { ts = first_call; tokens = 400000 } ∷ [])

-- A call of all the hour's tokens stops the next one, for another half hour.
check-costly : (check costly "u" second_call).0 ≡ retry_after (pos 1800000000000)
unfolding check verdict since tokens_of ◌-ℤ◌
check-costly = refl

check_by_hour_example :
    (HasRoom (recent (second_call - ai_window) (costly "u"))
      × ((check costly "u" second_call).0 ≡ allowed))
    ⊎ (((ai_max_messages ≤ length (recent (second_call - ai_window) (costly "u")))
          ⊎ (ai_max_tokens ≤ tokens_of (recent (second_call - ai_window) (costly "u"))))
        × ((wait : ℕ) × (wait ≤ ai_window)
            × ((check costly "u" second_call).0 ≡ retry_after (pos wait))))
check_by_hour_example = check_by_hour costly "u" second_call (omega arith, omega arith)

check-fresh : (check no_calls "u" first_call).0 ≡ allowed
unfolding check verdict since tokens_of
check-fresh = refl

-- A request that records twice, half an hour after its check and at once again.
abbrev started : Server
started = record {
  log = (check no_calls "u" first_call).1;
  time = first_call;
  owed = owe (λ uid. 0) "u" 2;
}

abbrev spent : Server
spent = record {
  log = add_usage started.log "u" (pos 900) second_call;
  time = second_call;
  owed = owe started.owed "u" 1;
}

abbrev ended : Server
ended = record {
  log = add_usage spent.log "u" (pos 500) second_call;
  time = second_call;
  owed = owe spent.owed "u" 0;
}

two_records : Reach 2 ended
two_records =
    next
      (next (next here (start fresh "u" first_call 2 (omega arith) check-fresh (omega arith)))
        (spend started "u" second_call (pos 900) 1 (omega arith) refl))
      (spend spent "u" second_call (pos 500) 0 (omega arith) refl)

Reach-IsLimited_example :
    IsLimited 2 (ended.owed "u") second_call (ended.log "u")
    × (length (ended.log "u") < ai_max_messages + 2)
Reach-IsLimited_example = Reach-IsLimited 2 ended "u" two_records
