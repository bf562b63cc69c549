-- ===== src/Keyboard/Tests.antt =====
-- Key events through the dispatcher of dos_re/keyboard.py.
use dos_re.Prelude.{[], ◌∷◌, ◌≡◌, refl, true, arith}
use dos_re.Keyboard.{KeyDispatcher, new_key_dispatcher, post_down, post_up, pump, pump_events}
use dos_re.Keyboard.Kept.{MakeCodes}
use dos_re.Keyboard.Queue.{Others}
use dos_re.Keyboard.Tap.{TapSeen, pump-TapSeen}

-- Esc held, with its release posted, while a space is tapped.
abbrev busy : KeyDispatcher
busy = post_up 1 (pump true (post_down 1 new_key_dispatcher))

abbrev calm : KeyDispatcher
calm = pump true busy

esc_released : calm.delivered ≡ 0x81 ∷ 1 ∷ []
unfolding pump post_up post_down
esc_released = refl

-- A release without a press is delivered by the pump between frames, and only by it.
stray : (pump_events (post_up 5 new_key_dispatcher)).delivered ≡ 0x85 ∷ []
unfolding pump_events post_up
stray = refl

stray_kept : (pump true (post_up 5 new_key_dispatcher)).delivered ≡ []
unfolding pump post_up
stray_kept = refl

-- The release of Esc and another press are still queued.
abbrev waiting : KeyDispatcher
waiting = post_down 2 busy

pump-TapSeen_example :
    TapSeen 0x39 waiting
      (pump true (post_up 0x39 (post_down 0x39 waiting)))
      (pump true (pump true (post_up 0x39 (post_down 0x39 waiting))))
unfolding pump post_up post_down MakeCodes Others
pump-TapSeen_example =
    pump-TapSeen 0x39 waiting (omega arith)
      (omega arith, (λ e. absurd (omega arith)), (omega arith, (λ e. absurd (omega arith)), tt))
      refl tt
