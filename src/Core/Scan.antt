-- ===== src/Core/Scan.antt =====
-- The events of src/WinBlaze.Core/src/scan.rs.
use win_blaze.Base.{Option}
use win_blaze.Base.Text.{Text}
use win_blaze.Core.Model.{FileRecord, DirectoryRecord, VolumeRecord, ScanProgress, ScanSummary}

pub data ScanIssueKind : Type 0 where
  permission_denied not_found sharing_violation transient_io : ScanIssueKind
  unsupported_filesystem unknown fast_scan_unavailable : ScanIssueKind

pub record ScanIssueRecord : Type 0 where
  pub kind : ScanIssueKind
  pub path : Option Text
  pub message : Text

pub data ScanEvent : Type 0 where
  session_started : VolumeRecord → ScanEvent
  volume_discovered : VolumeRecord → ScanEvent
  directory_found : DirectoryRecord → ScanEvent
  file_found : FileRecord → ScanEvent
  issue : ScanIssueRecord → ScanEvent
  progress : ScanProgress → ScanEvent
  summary : ScanSummary → ScanEvent
  completed : ScanEvent
  failed : Text → ScanEvent
  cancelled : ScanEvent
