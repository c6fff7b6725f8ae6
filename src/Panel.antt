-- ===== src/Panel.antt =====
-- src/t6_kvm/panel.py: the administration panel, its accounts and its settings.
pub mod Settings
pub mod Backups
pub mod Update
pub mod Access
pub mod Answers
pub mod Saved
