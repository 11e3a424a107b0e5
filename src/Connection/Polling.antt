-- ===== src/Connection/Polling.antt =====
-- Output that waits is polled for.
use ladder.Prelude.{◌≡◌, Bool, true, false, ◌⊎◌, ◌≢◌}
use ladder.Buffer.{Buffer, readable_bytes}
use ladder.Connection.{Connection, Status, running}

-- All output is out, or the poller is to report when more can go, or the program has stopped.
-- The last part keeps the write callback unset.
abbrev Armed : Bool → Bool → Status → Buffer → Type 0
Armed polling has_callback status b =
    ((readable_bytes b ≡ 0) ⊎ ((polling ≡ true) ⊎ (status ≢ running))) × (has_callback ≡ false)

abbrev IsArmed : Connection → Type 0
IsArmed c = Armed c.channel.events.poll_out c.has_write_callback c.status c.write_buffer
