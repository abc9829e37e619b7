-- ===== src/Connection/Evolution.antt =====
-- What no operation of src/connection.rs on an existing connection changes, its id apart, and what
-- none undoes.
use netconnpool_rust.Base.{◌≡◌, refl, ◌∙◌, Bool, true, false, arith, ok}
use netconnpool_rust.Net.{Moment}
use netconnpool_rust.Connection.{
  Connection, mark_in_use, mark_idle, try_mark_idle, update_health, mark_unhealthy,
  report_leak_once, close, increment_reuse_count,
}

pub record Evolves (c d : Connection) : Type 0 where
  pub id : d.id ≡ c.id
  pub protocol : d.protocol ≡ c.protocol
  pub ip_version : d.ip_version ≡ c.ip_version
  pub created_at : d.created_at ≡ c.created_at
  pub closed : c.closed ≡ true → d.closed ≡ true

pub Evolves-refl : (c : Connection) → Evolves c c
Evolves-refl c = record {
  id = refl;
  protocol = refl;
  ip_version = refl;
  created_at = refl;
  closed = λ e. e;
}

pub Evolves-trans : {c d e : Connection} → Evolves c d → Evolves d e → Evolves c e
Evolves-trans h k = record {
  id = k.id ∙ h.id;
  protocol = k.protocol ∙ h.protocol;
  ip_version = k.ip_version ∙ h.ip_version;
  created_at = k.created_at ∙ h.created_at;
  closed = λ e. k.closed (h.closed e);
}

pub mark_in_use-Evolves : (m : Moment) (c : Connection) → Evolves c (mark_in_use m c)
unfolding mark_in_use
mark_in_use-Evolves m c = ground arith

pub mark_idle-Evolves : (m : Moment) (c : Connection) → Evolves c (mark_idle m c)
unfolding mark_idle
mark_idle-Evolves m c = ground arith

pub try_mark_idle-Evolves : (m : Moment) (c : Connection) → Evolves c (try_mark_idle m c).0
unfolding try_mark_idle
try_mark_idle-Evolves m c = ground arith

pub update_health-Evolves :
    (m : Moment) (b : Bool) (c : Connection) → Evolves c (update_health m b c)
unfolding update_health
update_health-Evolves m b c = ground arith

pub mark_unhealthy-Evolves : (c : Connection) → Evolves c (mark_unhealthy c)
unfolding mark_unhealthy
mark_unhealthy-Evolves c = ground arith

pub report_leak_once-Evolves : (c : Connection) → Evolves c (report_leak_once c).0
unfolding report_leak_once
report_leak_once-Evolves c = ground arith

pub increment_reuse_count-Evolves : (c : Connection) → Evolves c (increment_reuse_count c)
unfolding increment_reuse_count
increment_reuse_count-Evolves c = record {
  id = refl;
  protocol = refl;
  ip_version = refl;
  created_at = refl;
  closed = λ e. e;
}

pub close-Evolves : (m : Moment) (c : Connection) → Evolves c (close m c).0
unfolding close
close-Evolves m c = ground arith

-- After `close` the connection is closed, whatever the callback answers, and in use exactly if it was
-- before; a second `close` changes nothing and reports success.
pub close_lem :
    (m n : Moment) (c : Connection)
    → ((close m c).0.closed ≡ true)
      × ((close m c).0.in_use ≡ c.in_use)
      × (close n (close m c).0 ≡ ((close m c).0, ok tt))
unfolding close
close_lem m n c = ground arith

-- `try_mark_idle` reports whether the connection was in use, leaves it idle, and reports `false` the
-- second time.
pub try_mark_idle_once :
    (m n : Moment) (c : Connection)
    → ((try_mark_idle m c).1 ≡ c.in_use)
      × ((try_mark_idle m c).0.in_use ≡ false)
      × ((try_mark_idle n (try_mark_idle m c).0).1 ≡ false)
unfolding try_mark_idle
try_mark_idle_once m n c = ground arith
