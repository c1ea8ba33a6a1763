-- ===== src/Migrations/Columns.antt =====
-- backend/migrations/versions: the arguments that the revisions give to sa.Column and to
-- sa.ForeignKeyConstraint.
use enterprise_auth_server.Common.{true, false}
use enterprise_auth_server.Migrations.Names.{Name}
use enterprise_auth_server.Migrations.{Column, ColumnType, timestamp, ForeignKey}

-- sa.Column(name, type, nullable=False)
abbrev pub required : Name → ColumnType → Column
required n t = record { name = n; type = t; nullable = false; defaults_to_now = false }

-- sa.Column(name, type, nullable=True)
abbrev pub optional : Name → ColumnType → Column
optional n t = record { name = n; type = t; nullable = true; defaults_to_now = false }

-- sa.Column(name, sa.DateTime(timezone=True), server_default=CURRENT_TIMESTAMP, nullable=False)
abbrev pub stamp : Name → Column
stamp n = record { name = n; type = timestamp; nullable = false; defaults_to_now = true }

-- sa.ForeignKeyConstraint([column], [table.id], ondelete="CASCADE")
abbrev pub to_id_of : Name → Name → ForeignKey
to_id_of table column = record { column = column; table = table; target = "id" }
