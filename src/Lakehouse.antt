-- ===== src/Lakehouse.antt =====
-- learning/apache-iceberg/examples/iceberg_local_lab.py: the warehouse folder of the lab. The lab
-- itself is text for Spark.
pub mod Warehouse
pub mod Tests
