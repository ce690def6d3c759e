-- ===== src/Sandbox/Counting.antt =====
-- What a push of internal/deliverer/provider/sandbox/sandbox.go counts and delivers.
use pulsar_notifcation_pipel.Base.{
  length-append, ◌&&◌, ◌++◌, ltb, if◌then◌else◌, ◌≤◌, length, ◌+◌, [], ◌∷◌, some, arith, ◌≡◌, ascii,
}
use pulsar_notifcation_pipel.Sandbox.{entry, Sandbox, accept, attempts, push}
use pulsar_notifcation_pipel.GoError.{is_nil, nil}
use pulsar_notifcation_pipel.Message.{Notification}

-- After the script a push delivers the notification, counts once and leaves the script alone.
push_after_script :
    (n : Notification) (p : Sandbox)
    → length p.scripted ≤ p.position
    → push (some n) p ≡ (
      (some (record { provider_response = ascii "sandbox:accepted" }), nil),
      record p { delivered = p.delivered ++ n ∷ [] },
    )
unfolding push accept
push_after_script n p h = ground arith

-- One push, of a notification that is there: how far the count of Attempts moves. A nil entry of the
-- script moves it twice.
pub attempts-push :
    (n : Notification) (p : Sandbox)
    → attempts (push (some n) p).1
      ≡ attempts p
        + (if ltb p.position (length p.scripted) && is_nil (entry p.scripted p.position)
            then 2
            else 1)
unfolding attempts push accept
attempts-push n p = ground (arith, length-append p.delivered (n ∷ []))
