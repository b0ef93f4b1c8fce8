-- ===== src/State/Reconcile/Complete/Lenses.antt =====
-- The four tables that discovery fills.
use tmuxatlas.Common.{refl, Bool, Text, arith}
use tmuxatlas.State.Projection.{Host, Session, Window, Pane}
use tmuxatlas.State.Projection.Validate.{validate}
use tmuxatlas.State.Projection.Apply.{apply_operation}
use tmuxatlas.State.Reconcile.{
  removal_of_pane, upsert_of_pane, removal_of_window, upsert_of_window, removal_of_session,
  upsert_of_session, removal_of_host, upsert_of_host,
}
use tmuxatlas.State.Reconcile.Complete.{Table, IsTable}

abbrev pub hosts_table : Table Host
hosts_table = record {
  key = λ v. v.key;
  table = λ p. p.hosts;
  with_table = λ m p. record p { hosts = m };
  removal = removal_of_host;
  upsert = upsert_of_host;
}

abbrev pub sessions_table : Table Session
sessions_table = record {
  key = λ v. v.key;
  table = λ p. p.sessions;
  with_table = λ m p. record p { sessions = m };
  removal = removal_of_session;
  upsert = upsert_of_session;
}

abbrev pub windows_table : Table Window
windows_table = record {
  key = λ v. v.key;
  table = λ p. p.windows;
  with_table = λ m p. record p { windows = m };
  removal = removal_of_window;
  upsert = upsert_of_window;
}

abbrev pub panes_table : Table Pane
panes_table = record {
  key = λ v. v.key;
  table = λ p. p.panes;
  with_table = λ m p. record p { panes = m };
  removal = removal_of_pane;
  upsert = upsert_of_pane;
}

module _ (json_valid : Text → Bool) where
  pub hosts_table-IsTable : IsTable json_valid hosts_table
  unfolding validate apply_operation
  hosts_table-IsTable = record {
    table-with = λ m p. refl;
    with-with = λ m n p. refl;
    with_same = λ p. refl;
    removal_valid = λ k h. ground arith;
    removal_applies = λ k p. refl;
    upsert_valid = λ v. refl;
    upsert_applies = λ v p. refl;
  }

  pub sessions_table-IsTable : IsTable json_valid sessions_table
  unfolding validate apply_operation
  sessions_table-IsTable = record {
    table-with = λ m p. refl;
    with-with = λ m n p. refl;
    with_same = λ p. refl;
    removal_valid = λ k h. ground arith;
    removal_applies = λ k p. refl;
    upsert_valid = λ v. refl;
    upsert_applies = λ v p. refl;
  }

  pub windows_table-IsTable : IsTable json_valid windows_table
  unfolding validate apply_operation
  windows_table-IsTable = record {
    table-with = λ m p. refl;
    with-with = λ m n p. refl;
    with_same = λ p. refl;
    removal_valid = λ k h. ground arith;
    removal_applies = λ k p. refl;
    upsert_valid = λ v. refl;
    upsert_applies = λ v p. refl;
  }

  pub panes_table-IsTable : IsTable json_valid panes_table
  unfolding validate apply_operation
  panes_table-IsTable = record {
    table-with = λ m p. refl;
    with-with = λ m n p. refl;
    with_same = λ p. refl;
    removal_valid = λ k h. ground arith;
    removal_applies = λ k p. refl;
    upsert_valid = λ v. refl;
    upsert_applies = λ v p. refl;
  }
