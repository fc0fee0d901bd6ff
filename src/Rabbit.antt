-- ===== src/Rabbit.antt =====
-- go/rabbitmq-manager: create and delete the RabbitMQ account of an app.
pub mod Interface
pub mod Settings
pub mod Session
pub mod Memory
pub mod Whole
