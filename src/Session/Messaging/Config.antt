-- ===== src/Session/Messaging/Config.antt =====
-- The limits that a configuration gives.
use littleorgans.Base.{ℕ, zero, suc, ◌≤◌, ◌≡◌, refl, ◌⊎◌, inl, inr, Option, none, some, arith}
use littleorgans.Base.Int.{ℤ, pos, negsuc}
use littleorgans.Base.Exec.{Result, ok, err}
use littleorgans.Session.Messaging.{
  MailSafetyConfig, MailSafetySection, ConfigError, depth_limit_zero, rate_limit_zero,
  window_not_positive, nonzero_usize, nonzero_i64, configured, into_config,
}

-- A value that was given, or the default where none was.
abbrev pub Given : Option ℕ → ℕ → ℕ → Type 0
Given (some n) default value = value ≡ n
Given none default value = value ≡ default

abbrev pub GivenInt : Option ℤ → ℕ → ℕ → Type 0
GivenInt (some z) default value = z ≡ pos value
GivenInt none default value = value ≡ default

-- Three positive limits as they were given, or a field that is zero or negative.
abbrev pub Configures : MailSafetySection → Result ConfigError MailSafetyConfig → Type 0
Configures section (ok config) =
    ((1 ≤ config.conversation_depth_limit)
      × Given section.conversation_depth_limit 50 config.conversation_depth_limit)
    × ((1 ≤ config.sender_rate_limit) × Given section.sender_rate_limit 30 config.sender_rate_limit)
    × ((1 ≤ config.sender_rate_window)
        × GivenInt section.sender_rate_window_secs 60 config.sender_rate_window)
Configures section (err depth_limit_zero) = section.conversation_depth_limit ≡ some 0
Configures section (err rate_limit_zero) = section.sender_rate_limit ≡ some 0
Configures section (err window_not_positive) =
    (section.sender_rate_window_secs ≡ some (pos 0))
    ⊎ ((n : ℕ) × (section.sender_rate_window_secs ≡ some (negsuc n)))

-- What a field gives: a positive value, or its error with the reason for it.
abbrev Judged : ConfigError → (ℕ → Type 0) → Type 0 → Result ConfigError ℕ → Type 0
Judged field given reason (ok n) = (1 ≤ n) × given n
Judged field given reason (err e) = (e ≡ field) × reason

nonzero_usize-Judged :
    (value : Option ℕ) (default : ℕ) (field : ConfigError)
    → 1 ≤ default
    → Judged field (Given value default) (value ≡ some 0) (nonzero_usize value default field)
nonzero_usize-Judged (some zero) default field h = (refl, refl)
nonzero_usize-Judged (some (suc n)) default field h = (omega arith, refl)
nonzero_usize-Judged none default field h = (h, refl)

abbrev NotPositive : Option ℤ → Type 0
NotPositive value = (value ≡ some (pos 0)) ⊎ ((n : ℕ) × (value ≡ some (negsuc n)))

nonzero_i64-Judged :
    (value : Option ℤ) (default : ℕ) (field : ConfigError)
    → 1 ≤ default
    → Judged field (GivenInt value default) (NotPositive value) (nonzero_i64 value default field)
nonzero_i64-Judged (some (negsuc n)) default field h = (refl, inr (n, refl))
nonzero_i64-Judged (some (pos zero)) default field h = (refl, inl refl)
nonzero_i64-Judged (some (pos (suc n))) default field h = (omega arith, refl)
nonzero_i64-Judged none default field h = (h, refl)

configured-Configures :
    (section : MailSafetySection) (depth rate window : Result ConfigError ℕ)
    → Judged depth_limit_zero
        (Given section.conversation_depth_limit 50)
        (section.conversation_depth_limit ≡ some 0)
        depth
    → Judged rate_limit_zero
        (Given section.sender_rate_limit 30)
        (section.sender_rate_limit ≡ some 0)
        rate
    → Judged window_not_positive
        (GivenInt section.sender_rate_window_secs 60)
        (NotPositive section.sender_rate_window_secs)
        window
    → Configures section (configured depth rate window)
configured-Configures section (ok d) (ok r) (ok w) hd hr hw = (hd, hr, hw)
configured-Configures section (ok d) (ok r) (err e) hd hr hw = rw hw.0 hw.1
configured-Configures section (ok d) (err e) w hd hr hw = rw hr.0 hr.1
configured-Configures section (err e) r w hd hr hw = rw hd.0 hd.1

-- A configuration is accepted with three positive limits, each the one that was given or its default;
-- it is refused only for a field that is zero, or a window that is zero or negative.
pub into_config-Configures :
    (section : MailSafetySection) → Configures section (into_config section)
unfolding into_config
into_config-Configures section =
    configured-Configures section _ _ _
      (nonzero_usize-Judged section.conversation_depth_limit 50 depth_limit_zero (omega arith))
      (nonzero_usize-Judged section.sender_rate_limit 30 rate_limit_zero (omega arith))
      (nonzero_i64-Judged section.sender_rate_window_secs 60 window_not_positive (omega arith))
