-- ===== src/Server/Clock.antt =====
-- Go's time.Time and time.Duration: nanoseconds since an epoch before any time that is used.
use netherchat.Base.{ℕ, suc, ◌+◌, ◌-◌}
use netherchat.Base.Int.{ℤ, pos, negsuc}

-- t.Add(d)
abbrev pub add : ℕ → ℤ → ℕ
add t (pos d) = t + d
add t (negsuc d) = t - suc d
